-- ===== src/Profiler/History.antt =====
-- Whole lives of a profiler: its construction, any calls of its methods, and its end.
use fk_prof.Prelude.{
  ℕ, ◌≡◌, refl, ap, ◌∙◌, Bool, true, false, inl, inr, ◌⊎◌, Option, none, some, List, [], ◌∷◌, arith,
}
use fk_prof.Prelude.Int.{ℤ}
use fk_prof.LogWriter.{Text, contains}
use fk_prof.Profiler.Pool.{◌>>=◌, Pool}
use fk_prof.Profiler.Defs.{
  Memory, unset, Profiler, running_flag, is_running, unless_running, set_sampling_interval,
  set_max_frames_to_capture, copy_path, set_file_path, configure, start, stop, construct, destroy,
  blank, interval_or_default, frames_or_default, lesser, greater,
}
use fk_prof.Profiler.Shape.{
  Cell, ptr, pool, Wish, shared, own, Numbers, Shape, state, Apart, ==_refl, ==_ne, delete_any-pool,
  delete_any-strings,
}
use fk_prof.Profiler.Linked.{Linked, Current, configure-Linked}
use fk_prof.Profiler.Life.{Inv, Clamped, Leaves, bounds_kept, frames_kept, path_kept}
use fk_prof.Profiler.Running.{start_kept, stop_kept}

pub data Call : Type 0 where
  put_path : (path : Option Text) → Call
  put_interval : (interval_min interval_max : ℤ) → Call
  put_frames : (frames : ℤ) → Call
  begin : (generated : Text) (accepted : Bool) → Call
  halt : (accepted : Bool) → Call

-- The string that the destructor leaves to the agent.
abbrev pub left : Cell Text → Wish → Pool Text
left path shared = pool path
left path (own a t) = (a, t) ∷ []
left path fk_prof.Profiler.Shape.unset = []

abbrev pub remains : Shape → Memory
remains v = record {
  strings = left v.path v.wish;
  files = [];
  writers = [];
  buffers = [];
  handlers = [];
  processors = [];
}

module _ (allocate : List ℕ → ℕ) (rand : ℕ → ℕ) where
  pub answer : Call → Profiler → Option Profiler
  answer (put_path path) p = set_file_path allocate rand path p
  answer (put_interval lo hi) p = set_sampling_interval lo hi p
  answer (put_frames n) p = set_max_frames_to_capture n p
  answer (begin g ok) p = start allocate rand g ok p >>= (λ r. some r.1)
  answer (halt ok) p = stop ok p

  pub run : List Call → Profiler → Option Profiler
  run [] p = some p
  run (c ∷ cs) p = elim (answer c p) [ none ↦ none | some p' ↦ run cs p' ]

  run_step :
      (c : Call) (cs : List Call) (p p' : Profiler)
      → answer c p ≡ some p'
      → run (c ∷ cs) p ≡ run cs p'
  unfolding run
  run_step c cs p p' e = rw (e, run) refl

  -- The first state, before `configure`.
  abbrev built : Option Text → ℤ → ℤ → ℤ → Shape
  built path lo hi frames = record {
    path = none;
    wish = elim path [ none ↦ fk_prof.Profiler.Shape.unset | some t ↦ own (allocate []) t ];
    now = record { lo = 1; hi = 1; frames = 128 };
    later = record {
      lo = lesser (interval_or_default lo) (interval_or_default hi);
      hi = greater (interval_or_default lo) (interval_or_default hi);
      frames = frames_or_default frames;
    };
    file = none;
    writer = none;
    buffer = none;
    handler = none;
    processor = none;
    reload = true;
    timer = blank.timer;
    action = unset;
  }

  construct-built :
      (path : Option Text) (lo hi frames : ℤ) (g : Text)
      → construct allocate rand path lo hi frames g
        ≡ configure allocate rand g (state (built path lo hi frames))
  unfolding construct set_sampling_interval set_max_frames_to_capture copy_path unless_running
      is_running running_flag
  construct-built none lo hi frames g = refl
  construct-built (some t) lo hi frames g = refl

  pub construct_kept :
      (path : Option Text) (lo hi frames : ℤ) (g : Text)
      → Leaves allocate rand (construct allocate rand path lo hi frames g)
  construct_kept path lo hi frames g =
      let v₀ = built path lo hi frames in
      let (v, c, k, now, l, t) =
        configure-Linked allocate rand g v₀ (apart path) (inr (refl, alone path)) in
      (
        v,
        false,
        construct-built path lo hi frames g ∙ c,
        record {
          linked = k;
          apart = rw (now.wish, k.path) tt;
          clamped = rw l (record {
            positive = ground arith;
            order = ground arith;
            some_frames = ground arith;
            few_frames = ground arith;
          });
          settled = λ e. now;
          running = λ e. now.reload;
        },
      )
    where
      apart : (path : Option Text) → Apart none (built path lo hi frames).wish
      apart none = tt
      apart (some t) = tt

      alone :
          (path : Option Text)
          → fk_prof.Profiler.Configure.NotShared allocate rand (built path lo hi frames).wish
      alone none = tt
      alone (some t) = tt

  pub destroy-remains :
      (v : Shape) (on : Bool) → Inv allocate rand v on → destroy (state v) ≡ some (remains v)
  unfolding destroy
  destroy-remains v on inv = go v.wish refl (rw inv.linked.path at inv.apart)
    where
      go :
          (wish : Wish)
          → v.wish ≡ wish
          → Apart (some (inv.linked.s, inv.linked.name)) wish
          → destroy (state v) ≡ some (remains v)
      go shared e a =
          rw
            (
              e,
              inv.linked.path,
              ==_refl inv.linked.s,
              delete_any-pool v.processor,
              delete_any-pool v.handler,
              delete_any-pool v.buffer,
              delete_any-pool v.writer,
              delete_any-pool v.file,
            )
            refl
      go fk_prof.Profiler.Shape.unset e a =
          rw
            (
              e,
              delete_any-pool v.processor,
              delete_any-pool v.handler,
              delete_any-pool v.buffer,
              delete_any-pool v.writer,
              delete_any-pool v.file,
              inv.linked.path,
              ==_refl inv.linked.s,
            )
            refl
      go (own c t) e a =
          rw
            (
              e,
              inv.linked.path,
              ==_ne c inv.linked.s a,
              delete_any-pool v.processor,
              delete_any-pool v.handler,
              delete_any-pool v.buffer,
              delete_any-pool v.writer,
              delete_any-pool v.file,
              delete_any-strings (some (inv.linked.s, inv.linked.name)) c t a,
            )
            refl

  module _ (fresh : (used : List ℕ) → contains used (allocate used) ≡ false) where
    answer_kept :
        (c : Call) (v : Shape) (on : Bool)
        → Inv allocate rand v on
        → Leaves allocate rand (answer c (state v))
    unfolding answer
    answer_kept (put_path path) v on inv = path_kept allocate rand fresh path v on inv
    answer_kept (put_interval lo hi) v on inv = bounds_kept allocate rand lo hi v on inv
    answer_kept (put_frames n) v on inv = frames_kept allocate rand n v on inv
    answer_kept (begin g ok) v on inv =
        let (res, v', e, inv') = start_kept allocate rand g ok v on inv in
        (v', true, ap (λ o. o >>= (λ r. some r.1)) e, inv')
    answer_kept (halt ok) v on inv = stop_kept allocate rand ok v on inv

    run_kept :
        (cs : List Call) (v : Shape) (on : Bool)
        → Inv allocate rand v on
        → Leaves allocate rand (run cs (state v))
    unfolding run
    run_kept [] v on inv = (v, on, refl, inv)
    run_kept (c ∷ cs) v on inv =
        let (v₁, on₁, e₁, inv₁) = answer_kept c v on inv in
        let (v₂, on₂, e₂, inv₂) = run_kept cs v₁ on₁ inv₁ in
        (v₂, on₂, run_step c cs (state v) (state v₁) e₁ ∙ e₂, inv₂)

    -- After the construction of a profiler and any calls of its setters, `start` and `stop`: no call
    -- has deleted an object twice or read one that is gone; of each class exactly the object is
    -- alive that the profiler points to, and these objects refer to each other; the options that
    -- wait are in range, whatever was asked for; if the profiler is running, its objects are made
    -- from what the getters report; and the destructor then leaves nothing alive but the string of
    -- the path that the getter reports. The condition is that an allocation returns an address that
    -- is not in use.
    pub lives_well :
        (path : Option Text) (lo hi frames : ℤ) (g : Text) (cs : List Call)
        → (v : Shape) × (on : Bool) × ((construct allocate rand path lo hi frames g >>= run cs)
            ≡ some (state v))
          × Linked allocate rand v on
          × Clamped v.later
          × ((on ≡ false) ⊎ Current allocate rand v)
          × (destroy (state v) ≡ some (remains v))
    lives_well path lo hi frames g cs =
        let (v₁, on₁, e₁, inv₁) = construct_kept path lo hi frames g in
        let (v, on, e, inv) = run_kept cs v₁ on₁ inv₁ in
        (
          v,
          on,
          ap (λ o. o >>= run cs) e₁ ∙ e,
          inv.linked,
          inv.clamped,
          decide on inv,
          destroy-remains v on inv,
        )
      where
        decide :
            {v : Shape} (on : Bool)
            → Inv allocate rand v on
            → (on ≡ false) ⊎ Current allocate rand v
        decide true inv = inr (inv.settled (inv.running refl))
        decide false inv = inl refl
