-- ===== src/Lib.antt =====
-- The service launchers of the Boundary Event SDK: jsvc, the program under src/native/unix that
-- starts the Java service, runs it as another user, watches over it and stops it, and prunsrv, the
-- program under src/native/windows that installs it as a Windows service and runs it.
--
-- jsvc has four parts. The command line becomes a record (src/native/unix/native/arguments.c);
-- the Java home and its libraries are looked for in the file system (home.c with the tables of
-- location.c), by paths that replace.c makes; the launcher then forks a controller, which forks the
-- child that runs the JVM and starts it again when it asks for that (jsvc-unix.c).
--
-- prunsrv (src/native/windows/apps/prunsrv/prunsrv.c) reads a command and options from its command
-- line (src/native/windows/src/cmdline.c), adds what the registry stores for the service, and then
-- installs, changes, starts, stops or removes the service, or runs it under the service control
-- manager (SCM), which sends it controls and hears its reports.
--
-- What each file models, with the paths from src/native/unix/native:
-- - Prelude and its children: numbers, lists, integers and C strings; Text: the functions of
--   <string.h> and <stdlib.h> that the program calls. Text/Decimal: numbers printed and read.
-- - Replace: replace.c, in a memory of addresses, so that a write outside the buffer shows.
--   Replace/Substitution says what is meant, by recursion on the text.
-- - Arguments: arguments.c with arg_data of arguments.h. Arguments/Classpath: eval_cpath and
--   eval_ppath; Arguments/Options: which word is which option; Arguments: parse.
-- - Home: home.c. Home/Locations: location.c on a 64-bit Linux. The file system is a parameter, and
--   the buffers on the stack hold arbitrary bytes before replace writes them.
-- - Java: java_library and the options of java_init, in java.c.
-- - Daemon: jsvc-unix.c. Daemon/Kernel: the system calls, a parameter; what a theorem needs of them
--   is in a record of laws, which the tests fill. Daemon/Directories: mkdir0, mkdir1, mkdir2.
--   Daemon/PidFile: check_pid, get_pidf and the file under /tmp. Daemon/Signals: handler,
--   controller, signal_set. Daemon/Controller: run_controller. Daemon/Child: child.
--   Daemon/Wait: wait_child and stop_child. Daemon/Users: the change of user.
--   Daemon/Output: set_output.
--   Daemon/Logger: logger_child.
--   Daemon/Main: main, put together from the others.
--
-- - Procrun: the Windows code, with paths from src/native/windows. Procrun/Memory: the memory
--   functions of src/mclib.c. Procrun/MultiSz, Procrun/Hex, Procrun/Wildcard and Procrun/Quotes:
--   lists of strings, hexadecimal numbers, the matching of names, and units taken out or replaced,
--   in src/utils.c. Procrun/Cmdline: src/cmdline.c; Procrun/Cmdline/Options: its loop over the
--   options; Procrun/Cmdline/Load: loadConfiguration and saveConfiguration, in
--   apps/prunsrv/prunsrv.c, like Procrun/Service and Procrun/Commands. Procrun/Service: the
--   reports, serviceMain and the control handler, with serviceStart and serviceStop in its
--   children Start and Stop. Procrun/Commands: the docmd functions and main;
--   Procrun/Commands/Image: the command line that is stored for a service. Procrun/Control:
--   apxServiceControl, in src/service.c. Procrun/Cmdline/Environment: apxCmdlineLoadEnvVars.
--   Procrun/Registry: the keys that a registry handle of src/registry.c keeps open, with its
--   values in Procrun/Registry/Access; Procrun/Registry/Deletion: the deletion of keys;
--   Procrun/Registry/Java: the Java home, the runtime library and the time limit it stores.
--   Procrun/Handles: src/handles.c, the closing of pools; its start and end in
--   Procrun/Handles/Manager, the blocks of memory in Procrun/Handles/Blocks, and hooks and
--   messages in Procrun/Handles/Messages. Procrun/Process: the child processes of src/rprocess.c;
--   their start and end in Procrun/Process/Running, what is written to them in
--   Procrun/Process/Streams, and their command line in Procrun/Process/Arguments. Procrun/Browse:
--   apxServiceBrowse of src/service.c with apxRegistryEnumServices of src/registry.c. Procrun/Log:
--   the names, levels and rotation of src/log.c; Procrun/Log/Writing: apxLogWrite.
--
-- How the state corresponds. A struct is a record with its fields; a NULL is none; an int is an
-- integer where the code may make it negative, and a natural number elsewhere. The world of the
-- kernel is passed from call to call. The pid file is locked while it is read and written, so each
-- function on it is one step. Signals arrive while the child sleeps, as a list for each sleep; the
-- controller's loop runs over a list of rounds, each with the end of its child and the clock. What
-- the functions of java.c answer to the child is a record of Booleans. In the Windows code a string is
-- the list of its units, a block of memory that is read to its end is a list too, and none or fault is
-- a read behind it or of memory that is free; an option is a record with the bits of its type. A run of
-- the service is a record of what the system and the JVM answer, with the controls, the reports of the
-- stop thread and the exit hooks as lists; the reports so far are a list in the service's state.
--
-- Bounds and fuel. mkdir1 calls itself on ever shorter names: its fuel is one more than the name's
-- length. The loops of replace have one round for each occurrence or byte. print_fuel has one more
-- than the number it prints, which a tenth never exhausts. A do-while loop whose SIZE_T starts at
-- zero has 2 ^ 64 rounds, which the theorems show not to happen; the deletion of registry keys has
-- fuel of twice the keys and two; the check points of the reports are DWORDs. All else is
-- structural recursion. A long has 64 bits and an int 32; atoi keeps the low 32 bits of what
-- strtol reads.
--
-- Not modelled: the calls of the JVM in java.c, the loading of libcap, debug output, help text,
-- and the builds for other systems. Allocations succeed, but for the two tables of arguments.c and
-- its class path. Of the Windows code: the lists of src/handles.c as pointers, and what callbacks
-- do to a pool that is closed, the locks,
-- opening and closing of the log, the installation of services in src/service.c, the threads that
-- read from a child and the token of its user, the loading of the JVM, the expansion of strings in
-- src/utils.c, the windows of prunmgr, and in prunsrv the redirection of the streams and the
-- signal event. The Java classes are in another language and no part of this library.
pub mod Prelude
pub mod Text
pub mod Replace
pub mod Arguments
pub mod Home
pub mod Java
pub mod Daemon
pub mod Procrun
