-- ===== src/Arguments/Options.antt =====
-- The words that `parse` of src/native/unix/native/arguments.c compares an argument with, in its order.
use boundary_event_sdk.Prelude.{
  Bool, ◌||◌, Bytes, codes, if◌then◌else◌, str_eq, starts_with, String,
}

-- One constructor for each body in the chain of tests; `vm_option` is the body that stores the word
-- for the JVM as it is.
pub data Opt : Type 0 where
  classpath jvm client server home user cwd version showversion help extra debug wait umask : Opt
  stop check nodetach keepstdin service install remove pidfile outfile errfile : Opt
  define_alone define vm_option procname invalid class_name : Opt

abbrev pub is : Bytes → String → Bool
is a w = str_eq a (codes w)

abbrev pub has : Bytes → String → Bool
has a w = starts_with (codes w) a

-- The tests behind `-errfile`.
unfoldable pub classify_vm : Bytes → Opt
classify_vm a =
    if has a "-verbose"
    then vm_option
    else if is a "-D"
    then define_alone
    else if has a "-D"
    then define
    else if has a "-X" || has a "-ea" || has a "-enableassertions" || has a "-da"
    then vm_option
    else if has a "-disableassertions" || is a "-esa" || is a "-enablesystemassertions"
    then vm_option
    else if is a "-dsa" || is a "-disablesystemassertions"
    then vm_option
    else if is a "-procname"
    then procname
    else if has a "-agentlib:" || has a "-agentpath:" || has a "-javaagent:"
    then vm_option
    else if has a "-"
    then invalid
    else class_name

-- The tests from `-debug` on.
unfoldable pub classify_flags : Bytes → Opt
unfolding classify_vm
classify_flags a =
    if is a "-debug"
    then debug
    else if is a "-wait"
    then wait
    else if is a "-umask"
    then umask
    else if is a "-stop"
    then stop
    else if is a "-check"
    then check
    else if is a "-nodetach"
    then nodetach
    else if is a "-keepstdin"
    then keepstdin
    else if is a "-service"
    then service
    else if is a "-install"
    then install
    else if is a "-remove"
    then remove
    else if is a "-pidfile"
    then pidfile
    else if is a "-outfile"
    then outfile
    else if is a "-errfile"
    then errfile
    else classify_vm a

unfoldable pub classify : Bytes → Opt
unfolding classify_flags
classify a =
    if is a "-cp" || is a "-classpath"
    then classpath
    else if is a "-jvm"
    then jvm
    else if is a "-client"
    then client
    else if is a "-server"
    then server
    else if is a "-home" || is a "-java-home"
    then home
    else if is a "-user"
    then user
    else if is a "-cwd"
    then cwd
    else if is a "-version"
    then version
    else if is a "-showversion"
    then showversion
    else if is a "-?" || is a "-help" || is a "--help"
    then help
    else if is a "-X"
    then extra
    else classify_flags a
