-- ===== src/Store/Disks.antt =====
-- A file system of two files in memory, on which the tests of the store run.
use multi_addon_rss.Base.{
  Bool, Bytes, Option, [], ap, arith, false, length, none, refl, some, subst, sym, true, ℕ, ◌≡◌,
}
use multi_addon_rss.Store.{
  FileSystem, OpenMode, StoreFile, for_reading, for_writing, legacy_file, preferences_file,
  temp_file,
}
use multi_addon_rss.Store.Reload.{StoresBytes}
use multi_addon_rss.Store.Saves.{KeepsPreferences}

pub record Disk : Type 0 where
  pub main : Option Bytes
  pub temp : Option Bytes

abbrev pub disk_contents : StoreFile → Disk → Option Bytes
disk_contents preferences_file d = d.main
disk_contents temp_file d = d.temp
disk_contents legacy_file d = none

abbrev pub is_stored : Option Bytes → Bool
is_stored none = false
is_stored (some b) = true

abbrev pub bytes_of : Option Bytes → Bytes
bytes_of none = []
bytes_of (some b) = b

abbrev pub open_disk : StoreFile → OpenMode → Disk → Option StoreFile × Disk
open_disk temp_file for_writing d = (some temp_file, record d { temp = some [] })
open_disk temp_file for_reading d = (none, d)
open_disk preferences_file m d = (some preferences_file, d)
open_disk legacy_file m d = (none, d)

-- A write stores all bytes, or none where the disk is full.
abbrev pub write_disk : Bool → Bytes → StoreFile → Disk → ℕ × Disk
write_disk true b temp_file d = (length b, record d { temp = some b })
write_disk true b preferences_file d = (0, d)
write_disk true b legacy_file d = (0, d)
write_disk false b f d = (0, d)

abbrev pub rename_disk : StoreFile → StoreFile → Disk → Bool × Disk
rename_disk temp_file preferences_file d = (true, record { main = d.temp; temp = none })
rename_disk temp_file temp_file d = (false, d)
rename_disk temp_file legacy_file d = (false, d)
rename_disk preferences_file g d = (false, d)
rename_disk legacy_file g d = (false, d)

abbrev pub remove_disk : StoreFile → Disk → Disk
remove_disk temp_file d = record d { temp = none }
remove_disk preferences_file d = d
remove_disk legacy_file d = d

abbrev pub disk : Bool → FileSystem Disk StoreFile
disk has_room = record {
  file_exists = λ f d. is_stored (disk_contents f d);
  create_dirs = λ f d. d;
  open_file = open_disk;
  size = λ f d. length (bytes_of (disk_contents f d));
  read = λ f n d. ((length (bytes_of (disk_contents f d)), bytes_of (disk_contents f d)), d);
  read_lines = λ f d. ([], d);
  is_ok = λ f d. true;
  write = write_disk has_room;
  flush = λ f d. d;
  close = λ f d. d;
  remove_file = remove_disk;
  rename_file = rename_disk;
}

abbrev pub handle_file : StoreFile → StoreFile
handle_file f = f

write_disk_keeps :
    (has_room : Bool) (b : Bytes) (h : StoreFile) (d : Disk)
    → (write_disk has_room b h d).1.main ≡ d.main
write_disk_keeps true b temp_file d = refl
write_disk_keeps true b preferences_file d = refl
write_disk_keeps true b legacy_file d = refl
write_disk_keeps false b h d = refl

some_handle : (f h : StoreFile) → some f ≡ some h → h ≡ f
some_handle f h e = cc

pub disk-KeepsPreferences :
    (has_room : Bool) → KeepsPreferences (disk has_room) disk_contents handle_file
disk-KeepsPreferences has_room = record {
  dirs_keep = λ d. refl;
  open_keeps = λ d. refl;
  open_of = λ d h e. some_handle temp_file h e;
  write_keeps = λ b h d t. write_disk_keeps has_room b h d;
  flush_keeps = λ h d t. refl;
  close_keeps = λ h d t. refl;
  remove_keeps = λ d. refl;
  failed_rename_keeps = λ d e. absurd (ground arith);
}

write_disk_stores :
    (b : Bytes) (h : StoreFile) (d : Disk) → h ≡ temp_file → (write_disk true b h d).1.temp ≡ some b
write_disk_stores b h d e = subst (λ f. (write_disk true b f d).1.temp ≡ some b) (sym e) refl

stored_contents :
    (b : Bytes) (h : StoreFile) (d : Disk)
    → h ≡ preferences_file
    → d.main ≡ some b
    → bytes_of (disk_contents h d) ≡ b
stored_contents b h d e s = subst (λ f. bytes_of (disk_contents f d) ≡ b) (sym e) (ap bytes_of s)

pub disk-StoresBytes : StoresBytes (disk true) disk_contents handle_file
disk-StoresBytes = record {
  opens_empty = λ d h e. (some_handle temp_file h e, refl);
  write_stores = λ b h d t empty all. write_disk_stores b h d t;
  flush_stores = λ h d t. refl;
  close_stores = λ h d t. refl;
  rename_moves = λ d e. refl;
  exists_of = λ b d s. ap is_stored s;
  opens_same = λ d h e. (some_handle preferences_file h e, refl);
  size_of = λ b h d t s. ap length (stored_contents b h d t s);
  read_of = λ b h d t s all. stored_contents b h d t s;
}
