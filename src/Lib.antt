-- ===== src/Lib.antt =====
-- CSCI 4730 course projects: a verification library for the C programs of this repository.
--
-- p3, the virtual memory simulator, is modelled in Vm. Vm/Replacement.antt has the globals `i`, `head`
-- and `clockHead` and the four policies of p3/pagetable.c; the linked lists of p3/list.c and
-- p3/clock_list.c are written as the sequences that they hold. Vm/Nodes.antt has those lists as nodes at
-- addresses, and Vm/Nodes/Lists.antt their operations by name, and Vm/Nodes/Print.antt what they print
-- and p3/list_test.c; the address that `malloc` returns is an
-- argument, and the fuel of a walk is above the length of the list. Vm/Tables.antt has the arrays and
-- counters of p3/pt_core.c, p3/disk.c and p3/vm.c as one record `Vm`; an access outside an array is the
-- fault `none`. Vm/Mmu.antt has `pagefault_handler`, `is_page_hit` and `MMU` of p3/pagetable.c, and
-- Vm/Requests.antt the loop of `main` in p3/vm.c over what `fgets` and `sscanf` make of the input.
-- Vm/Requests/Reading.antt has `main` from the text of the input on, and Vm/Generator.antt the program
-- p3/input_gen.c that prints such a text. Stdio.antt has `fgets`, and `printf` and `sscanf` of numbers.
--
-- p4, the file system simulator, is modelled in Fs. Fs/Bitmap.antt has the bit operations of p4/fs_util.c
-- and Fs/Alloc.antt its allocation of inodes and blocks. Fs/State.antt has the types of p4/fs.h and the
-- globals of p4/fs.c and p4/disk.c as one record `FileSystem`. Fs/Access.antt has the disk, the table of
-- inodes, and the look-up, the addition and the removal of an entry of the current directory;
-- Fs/Directory.antt has p4/directory.c, Fs/File.antt `file_create` and `file_cat` of p4/file.c,
-- Fs/File/Random.antt the string that `file_create` writes, and
-- Fs/Links.antt `file_remove`, `hard_link` and `file_copy`. Fs/Mount.antt has `fs_mount` of p4/fs.c where
-- no file is there to read the disk from and `fs_umount`, and Fs/Mount/Load.antt `disk_mount` and
-- `disk_umount` of p4/disk.c and `fs_mount` where there is such a file. A block of the disk is a tagged union by what
-- was written to it, and what the program reads where it has written nothing of the kind is the
-- parameter `Junk`. The index -1 of a look-up that failed is `none`, and the inode it reads is the
-- field `stray`. A C `int` is its 32-bit pattern where the code can make it negative. Names are
-- shorter than the 20 bytes of an entry. An index of an inode outside the table, which is undefined in C,
-- is a place of its own. Fs/Shell.antt has `execute_command` of p4/fs.c and the loop of
-- `main` in p4/fs_sim.c, over what `fgets`, `sscanf` and `atoi` make of each line, and what the commands
-- report. `fs_mount` of a disk that was saved writes over the end of `inodeMap`; what that does depends
-- on the layout of the globals and is part of the parameter `Layout`. If the globals lie in the order
-- of their declarations, it lands in `blockMap`, which is read right behind. `rootDirInode` is never
-- read, and left out.
--
-- p1, the word counter, is modelled in Wc.antt: `word_count` of p1/wc_core.c, and from p1/wc_multi.c the
-- part that each child counts, the loop that starts a crashed child again, and the sums. A file is the
-- list of its bytes, of a size that an `int` can hold, `char` is signed, and which attempts of a child
-- crash is a parameter. Wc/Programs.antt has `main` of p1/wc.c and of p1/wc_multi.c, from the arguments to
-- the totals.
--
-- p2, the web server, is modelled in Web. Web/Queue.antt has the buffer, the semaphores and the mutex of
-- p2/webserver_multi.c, with the listener and each thread of the pool as a program counter and a step
-- relation, one shared access to a step, under any schedule; Web/Queue/Stack.antt has `producer` and
-- `consumer` as whole calls, and Web/Queue/Control.antt `main` and the end of `thread_control`. Which socket `accept` returns and whether a thread crashes in `process` are
-- left open; Web/Queue/History.antt reads off a run which sockets were accepted and served. The steps cover the
-- listener while it runs: that `accept` fails, at which it ends, is not a step. Web/Http.antt has the answers of p2/net.c and Web/Http/Process.antt its `process`, over
-- Web/Text.antt, the functions of the C library on strings. The files of the server, its clock and
-- its working directory are the parameter `Host`; a write behind the end of a buffer is `fault`. The
-- working directory is taken to be read by `getcwd`, and a size to fit the `int` it is printed as.
-- Web/Server.antt has the settings of p2/webserver.c and its loop over the
-- connections. Web/Client.antt has the request of p2/client.c, the loop that sends it, and `timeval_subtract`, and
-- Web/Client/Threads.antt its `main` and a thread from the connected socket on. `main` reads the result
-- of a thread at the address of a local of a thread that has ended; what it reads there is a parameter, and
-- so is whether a thread calls `exit(1)` first, which ends the program. An `int` in a sum of bytes is
-- its 32-bit pattern.
--
-- The counters and the FIFO index are natural numbers: they grow by one with a request, and an input
-- with 2^31 requests, at which the C `int` overflows, is out of scope. Fuel is used for the loop of
-- `clock`, which is given one round more than there are nodes. Other
-- printing and access to files of the host is not modelled; what `malloc` leaves in memory is a parameter.
pub mod Base
pub mod Fs
pub mod Stdio
pub mod Vm
pub mod Wc
pub mod Web
