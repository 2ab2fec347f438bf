-- ===== src/Lib.antt =====
-- Verification of NebulaOS: its kernel, its UEFI application, and the core of the Limine boot loader
-- that it is built with (boot/limine/limine).
--
-- The boot loader's second stage finds the memory that the firmware reports, and cleans that map
-- (`pmm_sanitise_entries`); all its allocations are changes of the map. It then loads the kernel
-- and jumps to `_start`, which writes to the screen and the serial port. The UEFI application
-- prints a line and returns.
--
-- The paths that begin with common/ are below boot/limine/limine.
--
-- Common - 64-bit arithmetic, with the checked operations of common/lib/misc.h; code that panics.
-- Console - kernel/src/console.c. The screen is a function from the index of a cell; the ports
--   are the log of what was sent. Screen refines it to a page without a lower end, of which the
--   screen shows 25 lines; Serial has what the port sends; Hex has `console_write_hex`.
-- Kernel - kernel/src/main.c.
-- Uefi - uefi-bootloader/src/main.c.
-- Pmm - common/mm/pmm.s2.c, pmm.c and pmm.h. An array of entries with its count is a list; a
--   function that changes the map takes it and returns it. Entry has the data, Sanitise the first
--   two loops of `pmm_sanitise_entries` and the function, Order its sort and its merge, NewEntry
--   `pmm_new_entry`, Alloc the allocators, `pmm_free`, `pmm_realloc` and `memmap_alloc_range_in`,
--   Query `pmm_check_type`, Usable `check_usable_memory`, Info `mmap_get_info`, Boot the BIOS
--   build's `init_memmap` and `get_memmap`. Hits is the abstract view of a map: how often it gives
--   a type to an address. The theorems state what each operation does to that view.
-- Vmm - common/mm/vmm.c and vmm.h, the x86 build. Memory is a function from the address of an 8-byte
--   word, and the allocator is the list of the pages that it will return. Table has the entries and
--   `get_next_level`, Vmm `map_page` and `map_pages`. Walk is the specification, the walk of the
--   processor and the ranks that keep the tables a tree; Growth, Mapping and Ranges have the proofs.
-- Volume - common/lib/part.s2.c and part.h. The sectors of the device are a parameter. Volume has the
--   reads through the cache of one block, Cached what the cache holds, Reads what is read.
--   Volume.Partitions has the partition tables, over a function that reads a span of the disk.
-- Fat - common/fs/fat32.s2.c, over a function that reads bytes of the partition. Fat has the context,
--   the FAT and the reads, Chain and Reads their proofs; Names has the long and short names,
--   Names.Directory the search in a directory and the paths; Names.Long says what parts make a long
--   name, Written, Reading and Found that the search finds such names. A path component's limit of
--   259 characters is kept.
-- Uri - common/lib/uri.c: Uri has `uri_resolve` and `parse_bios_partition`, Parts the text that each of
--   their parts takes, Print the text of a URI, Drive the numbers of a drive and a partition.
-- Config - common/lib/config.c: Config has the removal of blanks from the text and
--   `config_get_value`, Bytes, Trimmed and Lines their proofs, Smbios the search for a configuration
--   in the SMBIOS.
-- Blake2b - common/crypt/blake2b.c: the hash, and the filter that hashes what is read through it.
--   Absorb has a reference that takes the input byte by byte, Stream and Digest the refinement of
--   it, Filter the file handle. The file below the filter is a parameter.
-- Elsewhere - common/lib/elsewhere.c: the targets of what is moved last, over the memory map.
-- Libc - common/lib/libc.s2.c and libc.c: comparisons, searches and copies of strings, `strtoul`.
-- Misc - common/lib/misc.s2.c and misc.c, and inet_pton of libc.s2.c: numbers and their texts.
-- Guid - common/lib/guid.c.
-- Qoi - common/lib/qoi.c: the decoder, over the list of the file's bytes. Chunks has the format, Words
--   the packing of bytes, Decoded and File the decoder against the format.
--
-- Panics are values (Common.Fallible): a result is a value, a panic or a run out of fuel, and
-- `Ensures P` allows a panic but no run out of fuel.
--
-- Fuel. `overlap_loop` restarts for each entry that it removes, on fuel of one more than the number
-- of entries; that it never runs out is part of what is shown of the sanitiser. The loop that waits
-- for the serial port is on fuel, an argument, and a theorem on the console assumes that the line
-- status register shows the transmitter empty within that many reads. `conv_mem_alloc` moves its
-- base by a page up to 1 MiB, in at most 257 rounds, on fuel 1024.
--
-- `mmap_get_info` makes a pass for each frontier that an entry moves, on fuel of twice the entries
-- and one; that this is enough is part of what is shown of it.
--
-- `map_page` calls itself to emulate a page of 1 GiB and to split a large page, on fuel for the depth
-- of these calls; without such pages one unit is enough. The loops over a range are on fuel of the
-- number of 4 KiB pages in it.
--
-- The loop of `volume_read` copies at least a byte in each round, on fuel of the bytes to read. The
-- chain of extended boot records is followed for as many steps as the index asks. A FAT chain is
-- followed for its largest allowed length, and `read_cluster_chain` has fuel for each byte.
-- The walk of the SMBIOS is on fuel, an argument: for most tables a round for each byte is enough,
-- and for one kind of structure no fuel is.
--
-- `elsewhere_append` counts its own retries down from 65536. `sqrt` has 32 rounds at most, one for
-- each power of four. The blocks of a hash's input are counted down from the input's length.
--
-- Numbers are natural numbers; each `+` of the source that may wrap is written with its `%`.
-- Pointers are addresses, and the physical memory is a function from the address to its byte.
--
-- `size_t` has 64 bits, as in the build for x86-64, and the branches on `__i386__` are left out.
--
-- Not modelled: printing, the UEFI build's own handling of the firmware's map, and the boot loader's
-- other parts.
pub mod Blake2b
pub mod Common
pub mod Config
pub mod Console
pub mod Elsewhere
pub mod Fat
pub mod Guid
pub mod Kernel
pub mod Libc
pub mod Misc
pub mod Pmm
pub mod Qoi
pub mod Uefi
pub mod Uri
pub mod Vmm
pub mod Volume
