-- ===== src/Lib.antt =====
-- The Loom bootloader: a model of its core, and proofs about it.
--
-- The bootloader's core (src/core) stands on a few byte and list routines, reads disks through
-- block devices, finds partitions and file systems on them, loads its modules as ELF images, and
-- runs a shell on the console. Platform code and drivers register themselves with the core through
-- structures of callbacks; here each callback is an argument, with what the code relies on as a
-- named hypothesis.
--
--   Base         shared names; the outcome of a call (it returns, panics or never ends); machine
--                words; laws of `|` and `&`
--   Error        the error codes (include/loom/error.h)
--   Arith        src/core/arith.c: 64-bit division
--   LinkedList   src/core/list.c, include/loom/list.h: the intrusive ring of nodes, on a store that
--                maps the address of a node to its links
--   Memory       src/core/string.c: the byte routines, on a store that maps an address to its byte
--   Str          src/core/string.c: strings that a zero byte ends, on the same store
--   BlockDev     src/core/block_dev.c: loomBlockDevRead, from its three requests to its two copies,
--                and the cache of blocks in order of use (Cache), with loomBlockDevCachedRead
--   Partition    src/core/partition.c: a block device on a range of another one's blocks
--   Scheme       src/mods/mbr.c, src/mods/gpt.c: the partitions that a disk's tables name (Mbr, Gpt),
--                against what a table offers (Offers)
--   Fat          src/mods/fat: the boot sector (Probe), the names of entries (Name), the allocation
--                table (Cluster), directories (Dir), reading a file (File),
--                the search of a path (Path)
--   Heap         src/core/mm.c: loomAlloc on arenas of chunks with boundary tags (Tiles), their list of
--                free chunks (Free, Segment, Unlink), the split of a chunk (Hole, Split), the search
--                in an arena (Search) and over all of them (Alloc); loomHeapIterate (Iterate);
--                loomHeapAddRegion (AddRegion, Ranges, Grow); loomFree (Release), with its merging of
--                free chunks backward (Step, Back) and forward (Front)
--   Elf          src/core/elf.c: the checks of an image, and the walks over its sections
--   Keycode      src/core/keycode.c: the characters of keys
--   Shell        src/core/shell.c: the line editor, and the arguments of a line (Args)
--
-- A C function keeps its name, in lower case and without the prefix: loomBlockDevRead is
-- `block_dev_read`. State is passed explicitly; a function that can fail an assertion or not return
-- gives an `Exec`. Each component's properties stand in its child modules, and its examples in
-- `Samples`.
--
-- Widths are those of the i686: `usize` and addresses have 32 bits, and wrap where the source can.
-- A loop that counts is recursion on what is left to do. The loops over strings recur on fuel: as
-- much as the string is long, and one more, is enough, and the theorems say so; those over arenas
-- and free chunks likewise, with more fuel than there are of them.
--
-- Not modelled: the reallocation and aligned requests of the heap, open directories on FAT, the
-- memory map, the hashes, the input sources, the formatter, the
-- consoles, the commands, symbols and the module loader, on which the parts above do not rest; the
-- code that
-- is little but port and BIOS access (src/platform, the drivers of src/mods/x86), assembly, the
-- host tools and the build files, which hold no logic of the core.
pub mod Arith
pub mod Base
pub mod BlockDev
pub mod Elf
pub mod Error
pub mod Fat
pub mod Heap
pub mod Keycode
pub mod LinkedList
pub mod Memory
pub mod Partition
pub mod Scheme
pub mod Shell
pub mod Str
