-- ===== src/Profiler/Linked.antt =====
-- The objects of a built profiler hang together, and `configure` makes them so.
use fk_prof.Prelude.{
  ℕ, ◌≡◌, refl, sym, Bool, true, false, Bool-cases, inl, inr, ◌⊎◌, none, some, List, arith,
}
use fk_prof.SignalHandler.{SignalHandler, init}
use fk_prof.LogWriter.{Text}
use fk_prof.Profiler.Pool.{same}
use fk_prof.Profiler.Defs.{processor_interval, configure}
use fk_prof.Profiler.Shape.{Wish, shared, unset, own, Shape, state, Apart, ==_refl, ==_ne}
use fk_prof.Profiler.Configure.{
  first, settled, relog, NotShared, replace_log-state, rebuffer, replace_buffer-state, reprocess,
  replace_processor-state, log_stale, frames_stale, bounds_stale, configure_all, configure_frames,
  configure_bounds, configure_none,
}

module _ (allocate : List ℕ → ℕ) (rand : ℕ → ℕ) where
  -- Every object is there and refers to the others that are there; the sizes and intervals are
  -- those of `configuration_`; the string of its path is the name of the open file.
  pub record Linked (v : Shape) (on : Bool) : Type 0 where
    pub s : ℕ
    pub f : ℕ
    pub w : ℕ
    pub b : ℕ
    pub h : ℕ
    pub r : ℕ
    pub name : Text
    pub object : SignalHandler
    pub path : v.path ≡ some (s, name)
    pub file : v.file ≡ some (f, name)
    pub writer : v.writer ≡ some (w, f)
    pub buffer : v.buffer ≡ some (b, record { listener = w; max_frames = v.now.frames })
    pub handler : v.handler ≡ some (h, object)
    pub intervals : object.timing_intervals ≡ (init rand v.now.lo v.now.hi).timing_intervals
    pub processor :
        v.processor
        ≡ some (
          r,
          record {
            log_writer = w;
            buffer = b;
            handler = h;
            interval = processor_interval allocate rand v.now.lo;
            is_running = on;
          },
        )

  -- The objects are made from what the getters report.
  pub record Current (v : Shape) : Type 0 where
    pub wish : v.wish ≡ shared
    pub lo : v.now.lo ≡ v.later.lo
    pub hi : v.now.hi ≡ v.later.hi
    pub frames : v.now.frames ≡ v.later.frames
    pub reload : v.reload ≡ false

  abbrev Unbuilt : Shape → Type 0
  Unbuilt v = (v.processor ≡ none) × NotShared allocate rand v.wish

  path_cases :
      (v : Shape)
      → Linked v false
      → Apart v.path v.wish
      → ((log_stale allocate rand (state v) ≡ true) × NotShared allocate rand v.wish)
        ⊎ ((log_stale allocate rand (state v) ≡ false) × (v.wish ≡ shared))
  path_cases v k apart = go v.wish (rw k.path at apart) refl
    where
      go :
          (wish : Wish)
          → Apart (some (k.s, k.name)) wish
          → v.wish ≡ wish
          → ((log_stale allocate rand (state v) ≡ true) × NotShared allocate rand v.wish)
            ⊎ ((log_stale allocate rand (state v) ≡ false) × (v.wish ≡ shared))
      go shared a e = inr (rw (k.processor, e, k.path, ==_refl k.s) (refl, refl))
      go unset a e = inl (rw (k.processor, e, k.path) (refl, tt))
      go (own c t) a e = inl (rw (k.processor, e, k.path, ==_ne k.s c (λ q. a (sym q))) (refl, tt))

  abbrev pub Configured : Text → Shape → Type 0
  Configured g v =
      (v' : Shape) × (configure allocate rand g (state v) ≡ some (state v'))
      × Linked v' false
      × Current v'
      × (v'.later ≡ v.later)
      × (v'.timer ≡ v.timer)

  rebuilt :
      (g : Text) (v : Shape)
      → log_stale allocate rand (state v) ≡ true
      → NotShared allocate rand v.wish
      → Apart v.path v.wish
      → Configured g v
  unfolding init
  rebuilt g v stale n apart =
      let v₁ = relog allocate rand g v in
      let v₂ = rebuffer allocate rand (first allocate rand) v₁ in
      let v₃ = reprocess allocate rand (first allocate rand) (first allocate rand) v₂ in
      (
        record v₃ { reload = false },
        configure_all allocate rand g (state v) (state v₁) (state v₂) (state v₃) stale
            (replace_log-state allocate rand g v n apart)
            (replace_buffer-state allocate rand v₁ (first allocate rand) refl)
            (replace_processor-state allocate rand v₂ (first allocate rand) (first allocate rand)
              refl refl),
        record {
          s = (settled allocate rand g v.wish).0;
          f = first allocate rand;
          w = first allocate rand;
          b = first allocate rand;
          h = first allocate rand;
          r = first allocate rand;
          name = (settled allocate rand g v.wish).1;
          object = init rand v.later.lo v.later.hi;
          path = refl;
          file = refl;
          writer = refl;
          buffer = refl;
          handler = refl;
          intervals = refl;
          processor = refl;
        },
        record { wish = refl; lo = refl; hi = refl; frames = refl; reload = refl },
        refl,
        refl,
      )

  resized :
      (g : Text) (v : Shape)
      → Linked v false
      → log_stale allocate rand (state v) ≡ false
      → v.wish ≡ shared
      → frames_stale allocate rand (state v) ≡ true
      → Configured g v
  unfolding init
  resized g v k kept e stale =
      let v₂ = rebuffer allocate rand k.w v in
      let v₃ = reprocess allocate rand k.w (first allocate rand) v₂ in
      (
        record v₃ { reload = false },
        configure_frames allocate rand g (state v) (state v₂) (state v₃) kept stale
            (replace_buffer-state allocate rand v k.w (rw k.writer refl))
            (replace_processor-state allocate rand v₂ k.w (first allocate rand) (rw k.writer refl)
              refl),
        record {
          s = k.s;
          f = k.f;
          w = k.w;
          b = first allocate rand;
          h = first allocate rand;
          r = first allocate rand;
          name = k.name;
          object = init rand v.later.lo v.later.hi;
          path = k.path;
          file = k.file;
          writer = k.writer;
          buffer = refl;
          handler = refl;
          intervals = refl;
          processor = refl;
        },
        record { wish = e; lo = refl; hi = refl; frames = refl; reload = refl },
        refl,
        refl,
      )

  retimed :
      (g : Text) (v : Shape)
      → Linked v false
      → log_stale allocate rand (state v) ≡ false
      → v.wish ≡ shared
      → frames_stale allocate rand (state v) ≡ false
      → bounds_stale allocate rand (state v) ≡ true
      → Configured g v
  unfolding init
  retimed g v k kept e same stale =
      let v₃ = reprocess allocate rand k.w k.b v in
      (
        record v₃ { reload = false },
        configure_bounds allocate rand g (state v) (state v₃) kept same stale
            (replace_processor-state allocate rand v k.w k.b (rw k.writer refl) (rw k.buffer refl)),
        record {
          s = k.s;
          f = k.f;
          w = k.w;
          b = k.b;
          h = first allocate rand;
          r = first allocate rand;
          name = k.name;
          object = init rand v.later.lo v.later.hi;
          path = k.path;
          file = k.file;
          writer = k.writer;
          buffer = k.buffer;
          handler = refl;
          intervals = refl;
          processor = refl;
        },
        record { wish = e; lo = refl; hi = refl; frames = ground arith; reload = refl },
        refl,
        refl,
      )

  kept_all :
      (g : Text) (v : Shape)
      → Linked v false
      → log_stale allocate rand (state v) ≡ false
      → v.wish ≡ shared
      → frames_stale allocate rand (state v) ≡ false
      → bounds_stale allocate rand (state v) ≡ false
      → Configured g v
  kept_all g v k kept e same₁ same₂ = (
    record v { reload = false },
    configure_none allocate rand g (state v) kept same₁ same₂,
    record {
      s = k.s;
      f = k.f;
      w = k.w;
      b = k.b;
      h = k.h;
      r = k.r;
      name = k.name;
      object = k.object;
      path = k.path;
      file = k.file;
      writer = k.writer;
      buffer = k.buffer;
      handler = k.handler;
      intervals = k.intervals;
      processor = k.processor;
    },
    record { wish = e; lo = ground arith; hi = ground arith; frames = ground arith; reload = refl },
    refl,
    refl,
  )

  -- `configure`, from a profiler whose objects hang together and are idle, or from one that has
  -- none yet, deletes only what is alive, leaves alive exactly what the new pointers lead to, and
  -- makes the objects from the live configuration.
  pub configure-Linked :
      (g : Text) (v : Shape) → Apart v.path v.wish → Linked v false ⊎ Unbuilt v → Configured g v
  configure-Linked g v apart (inr (nothing, n)) = rebuilt g v (rw nothing refl) n apart
  configure-Linked g v apart (inl k) = elim (path_cases v k apart) [
    | inl (stale, n) ↦ rebuilt g v stale n apart
    | inr (kept, e) ↦ elim (Bool-cases (frames_stale allocate rand (state v))) [
      | inl stale ↦ resized g v k kept e stale
      | inr same₁ ↦ elim (Bool-cases (bounds_stale allocate rand (state v))) [
        | inl stale ↦ retimed g v k kept e same₁ stale
        | inr same₂ ↦ kept_all g v k kept e same₁ same₂
      ]
    ]
  ]
