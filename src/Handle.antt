-- ===== src/Handle.antt =====
-- Profiler::handle (recorder/src/main/cpp/profiler.cpp): one sample, from the signal to the queue.
pub mod Sample
mod Tests
use fk_prof.Prelude.{ℕ, Bool, true, false, Option, none, some, List, []}
use fk_prof.Prelude.Int.{ℤ, negsuc}
use fk_prof.Queue.{CallFrame, CallTrace, CircularQueue, push}
use fk_prof.ThreadMap.{ThreadMap, get}

-- `kGcTraceError` and `kUnknownNotJava`, -2 and -3.
abbrev pub gc_trace_error : ℤ
gc_trace_error = negsuc 1

abbrev pub unknown_not_java : ℤ
unknown_not_java = negsuc 2

-- `(is_gc_active != NULL) && ((*is_gc_active)() == 1)`: none is a null pointer.
abbrev pub error_code : Option Bool → ℤ
error_code none = unknown_not_java
error_code (some false) = unknown_not_java
error_code (some true) = gc_trace_error

-- `jni_env` is what `getJNIEnv` returns, null for none; `asgct` is what AsyncGetCallTrace fills in for a
-- thread. Without a JNI environment `trace.env_id` is never written: `garbage` is what it holds.
unfoldable pub handle :
    (jni_env : Option ℕ) (gc_active : Option Bool) (garbage : ℕ) (asgct : ℕ → ℤ × List CallFrame)
    → CircularQueue
    → ThreadMap
    → Option (Bool × CircularQueue × ThreadMap)
unfolding push get
handle none gc_active garbage asgct q m =
    let trace : CallTrace = record {
      env_id = garbage;
      num_frames = error_code gc_active;
      frames = [];
    } in
    let (done, q') = push trace none q in some (done, q', m)
handle (some env) gc_active garbage asgct q m =
    let trace : CallTrace = record {
      env_id = env;
      num_frames = (asgct env).0;
      frames = (asgct env).1;
    } in
    elim (get env m) [
      | none ↦ none
      | some (info, m') ↦ let (done, q') = push trace info q in some (done, q', m')
    ]
