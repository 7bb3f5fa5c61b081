-- ===== src/Error.antt =====
-- include/loom/error.h: the error codes, and the text of each.
use Prim.Native.String.{String}

pub data LoomError : Type 0 where
  none bad_arg alloc overflow range io bad_block_size bad_elf_ehdr bad_elf_phdr : LoomError
  bad_elf_shdr bad_elf_strtab bad_elf_rel bad_module bad_part_scheme bad_fs hook : LoomError
  platform notdir isdir noent : LoomError

pub string_error : LoomError → String
string_error none = "Success"
string_error bad_arg = "Bad argument"
string_error alloc = "Out of memory"
string_error overflow = "Value overflowed"
string_error range = "Value out of range"
string_error io = "I/O error"
string_error bad_block_size = "Bad block size"
string_error bad_part_scheme = "Bad partition scheme"
string_error bad_fs = "Bad filesystem"
string_error hook = "Bad hook"
string_error platform = "Platform error"
string_error notdir = "Not a directory"
string_error isdir = "Is directory"
string_error noent = "No entry found"
string_error _ = "Unknown error"
