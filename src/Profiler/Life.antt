-- ===== src/Profiler/Life.antt =====
-- Any calls of the profiler's methods, one after another.
use fk_prof.Prelude.{
  ℕ, ◌≤◌, ◌<◌, ◌≡◌, ◌≢◌, refl, ap, Bool, true, false, not, ◌&&◌, Option, none, some, List, [], ◌∷◌,
  if◌then◌else◌, arith,
}
use fk_prof.Prelude.Int.{ℤ}
use fk_prof.LogWriter.{Text, contains}
use fk_prof.Profiler.Pool.{same, is_null, delete_any, addresses}
use fk_prof.Profiler.Defs.{
  Profiler, is_running, unless_running, set_sampling_interval, set_max_frames_to_capture, copy_path,
  set_file_path, max_frames_limit, put_bounds, put_frames, put_path,
}
use fk_prof.Profiler.Shape.{
  ptr, pool, Wish, shared, unset, own, Numbers, Shape, state, Apart, ==_refl, ==_ne,
}
use fk_prof.Profiler.Linked.{Linked, Current}
use fk_prof.Profiler.Calls.{apart_from, reads, is_running-read}

-- What the setters let through.
pub record Clamped (n : Numbers) : Type 0 where
  pub positive : 1 ≤ n.lo
  pub order : n.lo ≤ n.hi
  pub some_frames : 1 ≤ n.frames
  pub few_frames : n.frames < max_frames_limit

module _ (allocate : List ℕ → ℕ) (rand : ℕ → ℕ) where
  pub record Inv (v : Shape) (on : Bool) : Type 0 where
    pub linked : Linked allocate rand v on
    pub apart : Apart v.path v.wish
    pub clamped : Clamped v.later
    pub settled : v.reload ≡ false → Current allocate rand v
    pub running : on ≡ true → v.reload ≡ false

  -- The objects do not depend on what waits for the next `configure`.
  pub Linked-later :
      (v : Shape) (on : Bool) (wish : Wish) (later : Numbers) (reload : Bool)
      → Linked allocate rand v on
      → Linked allocate rand (record v { wish = wish; later = later; reload = reload }) on
  Linked-later v on wish later reload k = record {
    s = k.s;
    f = k.f;
    w = k.w;
    b = k.b;
    h = k.h;
    r = k.r;
    name = k.name;
    object = k.object;
    path = k.path;
    file = k.file;
    writer = k.writer;
    buffer = k.buffer;
    handler = k.handler;
    intervals = k.intervals;
    processor = k.processor;
  }

  pub is_running-state :
      (v : Shape) (on : Bool) → Linked allocate rand v on → is_running (state v) ≡ some on
  is_running-state v on k =
      is_running-read (state v) k.r _ (ap ptr k.processor) (reads v.processor k.r _ k.processor)

  -- The outcome of a call: the state it leaves.
  abbrev pub Leaves : Option Profiler → Type 0
  Leaves o = (v : Shape) × (on : Bool) × (o ≡ some (state v)) × Inv v on

  blocked :
      (body : Profiler → Option Profiler) (v : Shape)
      → Inv v true
      → Leaves (unless_running body (state v))
  unfolding unless_running
  blocked body v inv = (v, true, rw (is_running-state v true inv.linked, unless_running) refl, inv)

  allowed :
      (body : Profiler → Option Profiler) (v : Shape)
      → Inv v false
      → Leaves (body (state v))
      → Leaves (unless_running body (state v))
  unfolding unless_running
  allowed body v inv l = rw (is_running-state v false inv.linked, unless_running) l

  pub setter :
      (body : Profiler → Option Profiler) (v : Shape) (on : Bool)
      → Inv v on
      → (Inv v false → Leaves (body (state v)))
      → Leaves (unless_running body (state v))
  setter body v true inv l = blocked body v inv
  setter body v false inv l = allowed body v inv (l inv)

  renumbered :
      (v : Shape) (later : Numbers)
      → Inv v false
      → Clamped later
      → Inv (record v { later = later; reload = true }) false
  renumbered v later inv c = record {
    linked = Linked-later v false v.wish later true inv.linked;
    apart = inv.apart;
    clamped = c;
    settled = λ e. absurd (cc);
    running = λ e. absurd (cc);
  }

  pub bounds_kept :
      (lo hi : ℤ) (v : Shape) (on : Bool)
      → Inv v on
      → Leaves (set_sampling_interval lo hi (state v))
  unfolding set_sampling_interval
  bounds_kept lo hi v on inv = setter (put_bounds lo hi) v on inv (λ inv'. (
    _,
    false,
    refl,
    renumbered v _ inv' (record {
      positive = ground arith;
      order = ground arith;
      some_frames = inv.clamped.some_frames;
      few_frames = inv.clamped.few_frames;
    }),
  ))

  pub frames_kept :
      (n : ℤ) (v : Shape) (on : Bool) → Inv v on → Leaves (set_max_frames_to_capture n (state v))
  unfolding set_max_frames_to_capture
  frames_kept n v on inv = setter (put_frames n) v on inv (λ inv'. (
    _,
    false,
    refl,
    renumbered v _ inv' (record {
      positive = inv.clamped.positive;
      order = inv.clamped.order;
      some_frames = ground arith;
      few_frames = ground arith;
    }),
  ))

  module _ (fresh : (used : List ℕ) → contains used (allocate used) ≡ false) where
    repathed :
        (v : Shape) (wish : Wish)
        → Inv v false
        → Apart v.path wish
        → Inv (record v { wish = wish; reload = true }) false
    repathed v wish inv apart = record {
      linked = Linked-later v false wish v.later true inv.linked;
      apart = apart;
      clamped = inv.clamped;
      settled = λ e. absurd (cc);
      running = λ e. absurd (cc);
    }

    fresh_one : (s : ℕ) → allocate (s ∷ []) ≢ s
    fresh_one s = apart_from (allocate (s ∷ [])) s (fresh (s ∷ []))

    dropped :
        (v : Shape) (wish : Wish)
        → v.wish ≡ wish
        → (k : Linked allocate rand v false) → Apart (some (k.s, k.name)) wish
        → (if not (is_null (state v).live.log_file_path)
              && not (same (state v).live.log_file_path (state v).configuration.log_file_path)
            then delete_any (state v).live.log_file_path (state v).memory.strings
            else some (state v).memory.strings)
          ≡ some (pool v.path)
    dropped v shared e k a = rw (e, k.path, ==_refl k.s) refl
    dropped v unset e k a = rw (e, k.path) refl
    dropped v (own c t) e k a = rw (e, k.path, ==_ne c k.s a, ==_refl c) refl

    pub put_path-Leaves :
        (new : Option Text) (v : Shape)
        → Inv v false
        → Leaves (put_path allocate rand new (state v))
    unfolding copy_path
    put_path-Leaves none v inv = (
      _,
      false,
      rw (dropped v v.wish refl inv.linked (rw inv.linked.path at inv.apart)) refl,
      repathed v unset inv (rw inv.linked.path tt),
    )
    put_path-Leaves (some t) v inv = (
      _,
      false,
      rw (dropped v v.wish refl inv.linked (rw inv.linked.path at inv.apart)) refl,
      repathed v (own (allocate (addresses (pool v.path))) t) inv
          (rw inv.linked.path (fresh_one inv.linked.s)),
    )

    pub path_kept :
        (new : Option Text) (v : Shape) (on : Bool)
        → Inv v on
        → Leaves (set_file_path allocate rand new (state v))
    unfolding set_file_path
    path_kept new v on inv = setter (put_path allocate rand new) v on inv (put_path-Leaves new v)
