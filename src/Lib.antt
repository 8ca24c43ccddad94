-- ===== src/Lib.antt =====
-- TananFS, a filesystem for FUSE with inodes and blocks of its own on a block device or a file.
-- This library models it from the bytes on the device to the requests that it serves: the layout,
-- the allocation of inodes and blocks, the cache in front of the device, files as chains of blocks,
-- regular files, directories, and the FUSE handlers.
--
-- The parts, with the files of the repository that they model:
--
-- src/error.rs: Error (the errors and their codes).
--
-- src/structs/mod.rs: Structs (the records), Structs.Packed (the bytes of the two packed
-- structures). A u64 is a natural number; Outcome has the checked operators, which panic where a
-- build with overflow checks does.
--
-- src/structs/bitmap.rs: Structs.Size (size_in_bytes, size_in_usize), Bitmap (empty, set, get,
-- next_free, and the loops of load_content and flush_content); theorems in Bitmap.Bits,
-- Bitmap.Access, Bitmap.NextFree, Bitmap.Free and Bitmap.Image.
--
-- src/structs/superblock.rs: Superblock (new, usable_capacity, the regions and the positions in
-- them); theorems in Superblock.Layout, Superblock.Regions, Superblock.Formatted and
-- Superblock.Positions.
--
-- src/structs/inode.rs, src/structs/block.rs: Cache (equality, as inode_eq and block_eq), Block
-- (write_bytes), Device.Structures (load and flush of every structure), Filesystem.Allocator and
-- Filesystem.Access (Block::new, Block::with_index).
--
-- src/filesystem/cache.rs: Cache (lines, lookups, updates, prune). A BTreeMap is a list of pairs in
-- the order of the keys.
--
-- src/filesystem/mod.rs: Filesystem (the state; device, cache and last_flush together are its field
-- store), Filesystem.Flushing, Filesystem.Allocator, Filesystem.Access and Filesystem.Mount (the
-- methods); theorems in Filesystem.Accounts and the files under it (Exhaustion among them),
-- Filesystem.Lines, Filesystem.Pruned, Filesystem.Coherence, Filesystem.InodeCoherence,
-- Filesystem.Resident, Filesystem.Quiet and the files under Filesystem.Persistence.
-- Filesystem.Using is an object that holds the shared filesystem, and Filesystem.Invariant what
-- every method has to keep, by the methods that reach the state (IsInvariant).
--
-- src/filetypes/helpers.rs: Block (what works on one block), RawFile.Read (what reads from a file)
-- and RegularFile (timestamp_now); theorems in Block.Data, Block.Overrun and Block.Splice.
--
-- src/filetypes/block_cursor.rs: Cursor; theorems in Cursor.Moves, Cursor.Regress, Cursor.Next,
-- Cursor.Inside and Cursor.Chunks.
--
-- src/filetypes/directory_child.rs: DirectoryChild, with names as their UTF-8 bytes (Word.Utf8),
-- and Directory.Access (read and flush, read_child and flush_child there); theorems in
-- DirectoryChild.Image.
--
-- src/filetypes/raw_file.rs: RawFile (new, load, get_nth_block, initialize, append_block, seek,
-- update_inode), RawFile.Read, RawFile.Write, RawFile.Extend (extend, with_capacity),
-- RawFile.Shrink and RawFile.Remove, on the file and the filesystem that it shares; theorems in
-- RawFile.Seek, RawFile.Linked, RawFile.Chain, RawFile.Nth, RawFile.Reading, RawFile.Rewriting,
-- RawFile.Rewritten, RawFile.WriteRounds and RawFile.Writing (a file as a chain of blocks),
-- RawFile.Fuel, RawFile.ReadLength, RawFile.Invariant and RawFile.Resizing. An i64 is the ℤ of
-- Word.Int.
--
-- src/filetypes/regular_file.rs: RegularFile and RegularFile.Create (FileOperations::new and
-- FileOperations::remove); theorems in RegularFile.Invariant, RegularFile.Length,
-- RegularFile.Reading and RegularFile.Writing.
--
-- src/filetypes/directory.rs: Directory (the record, lookup and insertion of a child),
-- Directory.Access (load, flush, drop), Directory.Children (transfer and removal) and
-- Directory.Create (FileOperations::new and FileOperations::remove); theorems in Directory.New
-- (when a child is known), Directory.Names (a directory as a map from names to inodes),
-- Directory.Distinct and Directory.Invariant.
--
-- src/structs/inode.rs also: Structs.Attrs (attrs).
--
-- src/filesystem/fuse.rs: Fuse (what a handler answers), Fuse.Session, Fuse.Attributes, Fuse.Files
-- and Fuse.Entries (the handlers), Fuse.Requests (Request, handle, and Reach: the states that a
-- sequence of requests leads to); theorems in Fuse.Requests, Fuse.Mounted, Fuse.Getattr,
-- Fuse.Listing, Fuse.Reading, Fuse.Writing, Fuse.ReadWrite and Fuse.Invariant.
--
-- src/main.rs: Main (main, from its arguments and the opened device to the filesystem that it
-- mounts; parsing a number and the size of the device are arguments); theorems in Main.Detection,
-- Main.Fresh and Main.Remount.
--
-- How they interact: a method of the filesystem is an Action, a function from the state to an
-- outcome (a value, an error or a panic) and the state that is left, so what was done before an
-- error stays done. The filesystem reaches the device only through Device, a record of the calls
-- that the code makes of Seek, Read, Write, Instant and BinaryHeap, on a state that the user of the
-- model chooses; no law is assumed of it but where a theorem says so. The theorems on what is
-- mounted again take a device that does not fail (Device.Memory): IsMemory is what Seek, Read and
-- Write promise of a file of a fixed size, a row of bytes with a position in it. Device.Holds says
-- what stands where in such a row, and Device.Images what each structure is written as. The
-- theorems on a write request, and on blocks acquired in a row, are about the time in which no
-- flush is due (IsQuiet of Filesystem.Quiet), so that the cache alone answers. The cache methods
-- read the clock once each, also where a lookup misses. A file or a directory is a value with the
-- filesystem next to it (Using); at the end of its scope Drop flushes it where it was modified,
-- also where an error leaves the scope, and a failure of that flush is logged only. A handler locks
-- the filesystem for one call at a time and requests are served one by one, so a lock fails only
-- after a panic. A panic ends a run where it happens: the drops that unwinding runs after it are
-- left out. The predicates of Outcome.Keeps, Outcome.Returns and Outcome.Ends are about all runs of
-- an action, and are shown for each way to build one.
--
-- Bounds and fuel: the search for a power of two has 64 rounds, one for each bit of a u64, and
-- detect_existing has 4, as in the source. The loops of read and write have one round more than the
-- buffer has bytes, since each but the last of them moves at least one byte: for read,
-- read-bytes-contents shows that this is enough on a chain of blocks, and for write, read-write.
-- The loop of extend has as many rounds as bytes are missing, which extend_rounds_fuel shows to be
-- enough. A loop that is out of fuel panics.
--
-- Not modelled: Display, log lines, CacheLine::<Block>::flush and Block::write_any, which the
-- program does not call; the help text, the log and the call of mount2 in src/main.rs, and
-- src/debugger.rs, which are input and output; and what fuser does with the replies:
-- ReplyDirectory::add is an argument of readdir, and to_string_lossy of lookup. Where
-- Directory::remove waits for a lock that it holds, the model panics. Times are seconds since the
-- epoch.
pub mod Base
pub mod Error
pub mod Outcome
pub mod Word
pub mod Structs
pub mod Superblock
pub mod Bitmap
pub mod Cursor
pub mod Block
pub mod DirectoryChild
pub mod Cache
pub mod Device
pub mod Filesystem
pub mod RawFile
pub mod RegularFile
pub mod Directory
pub mod Fuse
pub mod Main
pub mod Tests
