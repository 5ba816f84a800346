-- ===== src/Lib.antt =====
-- WinFuse: the kernel-mode core that both of its drivers share, src/shared/km, the driver for the Linux
-- subsystem, src/wslfuse, and its mount helper, src/fusermount.
--
-- The drivers turn requests of the Windows kernel into FUSE messages for a file system in user mode,
-- and its responses back. A request is a context; the I/O queue keeps those that wait for user mode to
-- take them (Pending) and those that wait for its response (Process). Path lookup splits a path into
-- names and asks for one after the other, and the cache remembers the entries of names: it gives them
-- out until they expire, and tells user mode to forget them when no file uses them any longer.
--
-- Base, with Tests, Lists and Chains: tests on numbers, lists, and hash chains beside a list.
-- Hash: the hash functions of src/shared/km/shared.h.
-- Path: src/shared/km/path.c. posix_path_prefix is FusePosixPathPrefix and posix_path_suffix is
--   FusePosixPathSuffix, on strings that are an address and a length in a memory of bytes. The bytes
--   that are left bound the loops.
-- Ioq: src/shared/km/ioq.c. The state is the record Ioq, and ioq_start_processing and the others are
--   FuseIoqStartProcessing and the others, one step each, as the fast mutex makes them. Ioq.Steps
--   composes them into the system of threads that hold contexts: each step is a call of one thread.
-- Cache: src/shared/km/cache.c. Items and generations are addresses, whose fields stand in stores.
--   Cache.Items has the inline functions, Cache.Gens the references on generations, Cache.Entries the
--   functions on entries and items, and Cache.Expiry creation, deletion and the expiration routine.
--   Cache.Valid states the invariant, and Cache.History runs any calls in any order. A round of the
--   expiration loop takes an item off the list, and so does a round of the forget loop, so that the
--   length of the list is enough rounds.
-- Rwlock: the read/write lock of src/shared/km/shared.h, which guards the operations of an instance.
--   A step of perform is one call of the system by one thread.
-- Context: src/shared/km/context.c, and FuseContextProcess of src/shared/km/shared.h, which is
--   context_process: a request from its creation to its deletion. What the operations do is the record
--   Operations. process_all is the part of FuseInstanceTransact that calls it with one message after
--   the other.
-- Proto: of src/shared/km/proto.c, FuseProtoFillBatchForget, which is fill_batch_forget, and
--   FuseAttrToFileInfo, which is attr_to_file_info. A round of the loop of the former passes 16 bytes
--   of a buffer of 8192, so that as many rounds as bytes are enough. Proto.Send has the other messages,
--   send_lookup for FuseProtoSendLookup and so on, and Proto.Errno the tables of error numbers.
-- Times: the conversions of times of src/shared/km/shared.h.
-- File: src/shared/km/file.c, the files of an instance, which hold references on items of the cache,
--   and the reference that an open request of src/shared/km/fuseop.c takes.
--
-- Fuseop: the operations of src/shared/km/fuseop.c, which are coroutines. A Run is what one does next:
--   it asks user mode, and goes on with a response and with an instance that other requests may have
--   changed meanwhile. Its other points are copies of memory, and what the system returns. resume is
--   coro_await. Fuseop.Access has FuseAccessCheck, Fuseop.Lookup has FuseLookup and FuseLookupPath,
--   Fuseop.Check and Fuseop.Create what CREATE consists of, Fuseop.Dispose its dispositions, Fuseop.Io
--   reads and writes, Fuseop.Directory the reading of directories, Fuseop.Security the permissions,
--   Fuseop.Files and Fuseop.Change the other operations on files, Fuseop.Information what of a file
--   is set, Fuseop.Reserved the requests of the driver itself and the locks of requests, and Fuseop.Enosys the opcodes that user mode does
--   not know. A round of a path lookup leaves less of the path, and a round of a read or a write
--   leaves fewer bytes, and one over the entries of a directory passes 24 bytes at least, so that
--   lengths bound the loops. Fuseop.Always says what it means that something holds of an operation,
--   whatever it is given, and Fuseop.Asked says it of what an operation ends with next to the size in
--   the last request that it sent.
-- Transact: FuseInstanceTransact of src/shared/km/instance.c as a thread on the queue, beside others.
-- Instance: FuseInstanceInit and FuseInstanceFini of src/shared/km/instance.c, which are instance_init
--   and instance_fini, over the queue, the files and the cache. What the deletion of a context gives up
--   is its Held.
-- Status: the statuses of Windows.
-- Wslfuse: src/wslfuse/device.c. A process that opens /dev/fuse has a file with a mount of its own; a
--   request CREATEVOLUME gives the file a volume and an instance, and LXMOUNT enters the mount into the
--   list of the device under the id of a Linux mount, takes it off, or asks for it. The state is the
--   record DeviceState of one device; ioctl_lx_mount is FileIoctlLxMount, device_open is DeviceOpen,
--   and the parts delete_unlist, delete_detach and delete_finish of FileDelete are what it does before,
--   under and after the lock of the device. Wslfuse.Volume has FileIoctlCreateVolume, which is
--   create_volume, FileIoctlWinMount and FileIoctl, and Wslfuse.Io has FileRead and FileWriteVector.
--   The fields holder and phase are no part of the code, and tell which file counts a reference on a
--   mount and how far it is deleted. Wslfuse.Reach composes the calls in any order, and Wslfuse.Maps
--   sees the list of the device as a table from ids to mounts. The vectors and the room of the buffer
--   bound the loop of FileWriteVector; the loop of FileRead goes on while rounds are given.
-- Fusermount: src/fusermount/fusermount.c. opt_parse_arg and utf8_to_utf16 have the names that they
--   have there, on the bytes of a text up to its 0; a write of utf8_to_utf16 behind the end of an
--   array has no result; Fusermount.Options has mount_opt_parse, and
--   Fusermount.Mounting has do_mount, do_unmount and the mount process, whose requests are those of
--   Wslfuse. Fusermount.Realpath has realpath_parent, get_mnt_id and the mount point that main chooses.
--   Each option passes a byte at least, and each character leaves less room, so that the
--   lengths bound the loops.
--
-- Parameters of the model are what the system gives: the comparison and the upper case of strings
-- (Cache.Rtl), the time, the addresses of new memory and whether an allocation or a message succeeds,
-- and the size of the structures that hold a mutex; what the kernel returns for handles, objects and
-- volumes; strtol and strtoul, and whether system calls of the mount helper succeed. Integers have the widths of the 64-bit driver.
--
-- Not modelled: the driver for Windows (src/winfuse), so that what it asks of the queue and the cache
-- stands as conditions on the calls; of src/wslfuse the timer, the registration, and names and paths of
-- volumes; of src/fusermount the rest of the command line, the pipes and processes around
-- the helpers, and fusermount-helper.c, which calls Windows; util.c and debug.c,
-- which call the system only. Of the operations, the memory of paths and the reference on the token of
-- the user, which only matter to the system's accounts, and the order of accesses to OpcodeENOSYS by
-- several threads, which the code allows to be lost.
pub mod Base
pub mod Cache
pub mod File
pub mod Hash
pub mod Ioq
pub mod Path
pub mod Rwlock
pub mod Times
pub mod Context
pub mod Proto
pub mod Status
pub mod Fuseop
pub mod Transact
pub mod Wslfuse
pub mod Fusermount
pub mod Instance
