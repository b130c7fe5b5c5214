-- ===== src/Home/Locations.antt =====
-- src/native/unix/native/location.c, as it is built on a 64-bit Linux: where to look for a JVM. `cpu` is the
-- build's `CPU`.
use boundary_event_sdk.Prelude.{List, [], ◌∷◌, ◌++◌, Bytes, codes, String}

abbrev pub java_home : Bytes
java_home = codes "$JAVA_HOME"

abbrev pub vm_name : Bytes
vm_name = codes "$VM_NAME"

abbrev pub location_home : List Bytes
location_home =
    codes "/usr/java/default"
    ∷ codes "/usr/java"
    ∷ codes "/usr/local/java"
    ∷ codes "/usr/lib/jvm/default-java"
    ∷ codes "/usr/lib/jvm/java"
    ∷ codes "/etc/alternatives/java_sdk"
    ∷ codes "/etc/alternatives/java_sdk_openjdk"
    ∷ codes "/etc/alternatives/jre"
    ∷ codes "/lib64/jvm/java"
    ∷ codes "/lib64/jvm/java-openjdk"
    ∷ codes "/lib/jvm/java"
    ∷ codes "/lib/jvm/java-openjdk"
    ∷ []

-- A path under the Java home, with and without the directory of the processor
abbrev at_cpu : String → Bytes → String → Bytes
at_cpu front cpu back = codes front ++ cpu ++ codes back

unfoldable pub location_jvm_cfg : (cpu : Bytes) → List Bytes
location_jvm_cfg cpu =
    codes "$JAVA_HOME/jre/lib/jvm.cfg"
    ∷ codes "$JAVA_HOME/lib/jvm.cfg"
    ∷ at_cpu "$JAVA_HOME/jre/lib/" cpu "/jvm.cfg"
    ∷ at_cpu "$JAVA_HOME/lib/" cpu "/jvm.cfg"
    ∷ []

unfoldable pub location_jvm_default : (cpu : Bytes) → List Bytes
location_jvm_default cpu =
    at_cpu "$JAVA_HOME/jre/lib/" cpu "/classic/libjvm.so"
    ∷ at_cpu "$JAVA_HOME/jre/lib/" cpu "/server/libjvm.so"
    ∷ at_cpu "$JAVA_HOME/jre/lib/" cpu "/client/libjvm.so"
    ∷ at_cpu "$JAVA_HOME/jre/lib/" cpu "/libjvm.so"
    ∷ at_cpu "$JAVA_HOME/lib/" cpu "/classic/libjvm.so"
    ∷ at_cpu "$JAVA_HOME/lib/" cpu "/server/libjvm.so"
    ∷ at_cpu "$JAVA_HOME/lib/" cpu "/client/libjvm.so"
    ∷ at_cpu "$JAVA_HOME/lib/" cpu "/libjvm.so"
    ∷ at_cpu "$JAVA_HOME/jre/bin/" cpu "/classic/libjvm.so"
    ∷ at_cpu "$JAVA_HOME/jre/bin/" cpu "/libjvm.so"
    ∷ at_cpu "$JAVA_HOME/bin/" cpu "/classic/libjvm.so"
    ∷ at_cpu "$JAVA_HOME/bin/" cpu "/libjvm.so"
    ∷ at_cpu "$JAVA_HOME/jre/lib/" cpu "/classic/green_threads/libjvm.so"
    ∷ codes "$JAVA_HOME/jre/lib/classic/libjvm.so"
    ∷ codes "$JAVA_HOME/jre/lib/client/libjvm.so"
    ∷ codes "$JAVA_HOME/jre/lib/libjvm.so"
    ∷ codes "$JAVA_HOME/lib/classic/libjvm.so"
    ∷ codes "$JAVA_HOME/lib/client/libjvm.so"
    ∷ codes "$JAVA_HOME/lib/libjvm.so"
    ∷ codes "$JAVA_HOME/jre/bin/classic/libjvm.so"
    ∷ codes "$JAVA_HOME/jre/bin/client/libjvm.so"
    ∷ codes "$JAVA_HOME/jre/bin/libjvm.so"
    ∷ codes "$JAVA_HOME/bin/classic/libjvm.so"
    ∷ codes "$JAVA_HOME/bin/client/libjvm.so"
    ∷ codes "$JAVA_HOME/bin/libjvm.so"
    ∷ at_cpu "$JAVA_HOME/jre/lib/" cpu "/fast64/libjvm.so"
    ∷ at_cpu "$JAVA_HOME/jre/lib/" cpu "/fast32/libjvm.so"
    ∷ at_cpu "$JAVA_HOME/lib/" cpu "/fast64/libjvm.so"
    ∷ at_cpu "$JAVA_HOME/lib/" cpu "/fast32/libjvm.so"
    ∷ codes "/usr/lib/libgcj.so.7"
    ∷ codes "/usr/lib/libgcj.so.6"
    ∷ []

unfoldable pub location_jvm_configured : (cpu : Bytes) → List Bytes
location_jvm_configured cpu =
    at_cpu "$JAVA_HOME/jre/lib/" cpu "/$VM_NAME/libjvm.so"
    ∷ at_cpu "$JAVA_HOME/lib/" cpu "/$VM_NAME/libjvm.so"
    ∷ []
