-- ===== src/Lib.antt =====
-- Lunix:TNG, a Linux driver for a network of wireless sensors (OSLab/lunix/lunix), and ext2-lite,
-- a file system for Linux (OSLab/Filesystems/Code), both of the operating-systems laboratory, and
-- three programs of the course on operating systems (projects).
--
-- Lunix:TNG has four parts. The line discipline (lunix-ldisc.c, Lunix/Ldisc.antt) takes the bytes
-- of one serial line and hands them to the protocol. The protocol (lunix-protocol.c and
-- lunix-protocol.h, Lunix/Protocol.antt) finds the packets in them, and a packet that names a
-- sensor updates the three measurement pages of that sensor (lunix-sensors.c and lunix.h,
-- Lunix/Sensors.antt). The character devices (lunix-chrdev.c and lunix-chrdev.h,
-- Lunix/Chrdev.antt) format the newest measurement of a sensor and give it to the processes that
-- read them. The module (lunix-module.c, Lunix/Module.antt) sets the parts up and takes them down.
--
-- lunix_protocol_received_buf is `received_buf`: its nine tests of the state, one after the other,
-- are a chain of calls of `stage`, each of which runs lunix_protocol_parse_state, `parse_state`.
-- Lunix/Protocol/Feed.antt describes the same receiver as a machine that takes one byte at a time,
-- and Lunix/Protocol/Frames.antt the packets and their bytes on the line. lunix_chrdev_read is
-- `read`, in the rounds that its loop makes: a round says which pages the two looks at the sensor
-- see, since an update may come between them, and if the wait and the semaphore are got without a
-- signal. Nothing is said of a process that sleeps for ever: it is a result of its own. snprintf
-- writes decimal digits on fuel of one more than the number, which is more than it has digits. The
-- lookup tables of lunix-lookup.h, which a generator fills, are a parameter.
--
-- What the module takes of the kernel's resources is counted in `Kernel`; how the kernel answers
-- is the parameter `Env`. lunix_module_init and its error paths are `module_init`, with
-- lunix_sensor_init, lunix_ldisc_init and lunix_chrdev_init.
--
-- Of ext2-lite, Ext2/Groups.antt has the descriptors and where a group lies (ext2.h, and
-- ext2_get_group_desc of balloc.c), Ext2/Bitmap.antt the kernel's bit operations, Ext2/Checks.antt
-- and Ext2/Balloc.antt the functions of balloc.c and Ext2/Ialloc.antt those of ialloc.c, under
-- their names less the prefix. A file system for the allocators is the record `Fs` of
-- Ext2/Mount.antt: the descriptors in their buffers, the bitmaps by block number, which buffers
-- are up to date, and the per-CPU counters. If the device has a buffer and can read a block is the
-- parameter `Device`; the inode cache is the parameter `InodeCache`. Loops over the bits and the
-- groups are recursions on what is left of them. The quadratic search of find_group
-- (Ext2/Ialloc/Hash.antt) runs on fuel of as many rounds as there are groups, which is enough
-- since its step begins at 1 and doubles until it reaches their number; the search for a bit in
-- ext2_new_inode runs on fuel of as many rounds as there are bits, of which each round that goes
-- on passes one.
--
-- Ext2/Dir.antt has the operations of dir.c on one page of a directory, as the list of its
-- entries, and Ext2/Dirfile.antt those on a directory as a file of pages: the search from the
-- first page on, the insertion that makes the directory grow, the deletion, the listing.
-- Ext2/Inode.antt is inode.c: the blocks of a file in its own array, truncation, an inode's place
-- in the table of its group, reading and writing it. Times are words of 64 bits, and a fast
-- symbolic link, for which ext2_iget uses a pointer without a value, is a result of its own. How
-- numbers of devices are packed is the parameter `DevCodec`. Ext2/Namei.antt is namei.c, with the
-- directories and the link counts of the inodes as its state; what ext2_new_inode returns (`made`)
-- and ext2_iget are parameters, and so are the answers of a synchronous write (`Writes`).
-- Ext2/Super.antt is super.c: the options, the mount as what it takes and gives back on each of
-- its error paths (what the kernel answers is the parameter `Answers`), the checks of the fields,
-- and the states of the super block through errors, syncs, remounts and the unmount.
--
-- Projects/Gates has the gates of project 2 (projects/project2): Child.antt is child.c, where a
-- handler that returns from the first pause ends the program, and Keeper.antt is parent.c, as a
-- step for every signal, second and answer of waitpid. The kernel's table of children is part of
-- the state, and the answers of fork, pids that are not in the table, are the parameter `fresh`;
-- the execv of a child is taken to succeed. A child that is stopped is taken to go on where it
-- was; the fields of struct sigaction that are not set are taken to be those of a plain handler.
-- Projects/Jobs.antt is the loop of project 3 (projects/project3/project3.c), as steps of the
-- parent and of its children on the pipes between them, whose orders are all covered; pipes do not
-- fail or fill up, and an int is its word of 32 bits. Projects/Client.antt has the arguments of
-- the client of project 4 (projects/project4/tcp_client.c), with atoi as a parameter, as in
-- Jobs.antt.
--
-- Bytes and the bits of a bitmap are lists; numbers are natural numbers, with the wrap-around of
-- unsigned long, of __u16 counts and of size_t written out where the code can reach it. Reading
-- past a list gives 0 or a clear bit, and writing past it changes nothing. Locks make what they
-- guard one step. Messages and dirty marks are left out, and so are the synchronous writes of the
-- allocators and, outside inode.c, the times of inodes.
--
-- Not modelled: the second character device, which is not built; the generator of the lookup
-- tables; the tool that attaches the line; the exam drivers, the other course projects and the
-- riddle scripts.
pub mod Prelude
pub mod Lunix
pub mod Ext2
pub mod Projects
