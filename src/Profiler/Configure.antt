-- ===== src/Profiler/Configure.antt =====
-- `configure` never deletes an object twice nor leaves a pointer to one that is gone.
use fk_prof.Prelude.{ℕ, ◌≡◌, refl, Bool, true, false, not, ◌||◌, some, List, [], ◌==◌}
use fk_prof.SignalHandler.{init}
use fk_prof.LogWriter.{Text}
use fk_prof.Profiler.Pool.{same, is_null}
use fk_prof.Profiler.Defs.{
  Profiler, replace_log, settle_path, open_log, replace_buffer, replace_processor,
  processor_interval, configure,
}
use fk_prof.Profiler.Shape.{
  ptr, Wish, shared, unset, own, Shape, state, Apart, read-pool, delete_any-pool,
  delete_any-strings,
}

module _ (allocate : List ℕ → ℕ) (rand : ℕ → ℕ) where
  -- An address for the first object of its class.
  abbrev pub first : ℕ
  first = allocate []

  -- The path that `replace_log` settles on.
  abbrev pub settled : Text → Wish → ℕ × Text
  settled generated (own a t) = (a, t)
  settled generated _ = (first, generated)

  abbrev pub relog : Text → Shape → Shape
  relog generated v = record v {
    path = some (settled generated v.wish);
    wish = shared;
    file = some (first, (settled generated v.wish).1);
    writer = some (first, first);
  }

  abbrev pub NotShared : Wish → Type 0
  NotShared shared = ⊥
  NotShared _ = Unit {0}

  pub replace_log-state :
      (generated : Text) (v : Shape)
      → NotShared v.wish
      → Apart v.path v.wish
      → replace_log allocate rand generated (state v) ≡ some (state (relog generated v))
  unfolding replace_log settle_path open_log
  replace_log-state generated v n apart = go v.wish n apart refl
    where
      go :
          (wish : Wish)
          → NotShared wish
          → Apart v.path wish
          → v.wish ≡ wish
          → replace_log allocate rand generated (state v) ≡ some (state (relog generated v))
      go shared n a e = absurd n
      go unset n a e =
          rw (e, delete_any-pool v.file, delete_any-pool v.writer, delete_any-pool v.path) refl
      go (own s t) n a e =
          rw (e, delete_any-pool v.file, delete_any-pool v.writer, delete_any-strings v.path s t a)
            (rw (read-pool s t) refl)

  abbrev pub rebuffer : ℕ → Shape → Shape
  rebuffer w v = record v {
    now = record v.now { frames = v.later.frames };
    buffer = some (first, record { listener = w; max_frames = v.later.frames });
  }

  pub replace_buffer-state :
      (v : Shape) (w : ℕ)
      → ptr v.writer ≡ some w
      → replace_buffer allocate rand (state v) ≡ some (state (rebuffer w v))
  unfolding replace_buffer
  replace_buffer-state v w e = rw (e, delete_any-pool v.buffer) refl

  abbrev pub reprocess : ℕ → ℕ → Shape → Shape
  reprocess w b v = record v {
    now = record v.now { lo = v.later.lo; hi = v.later.hi };
    handler = some (first, init rand v.later.lo v.later.hi);
    processor = some (
      first,
      record {
        log_writer = w;
        buffer = b;
        handler = first;
        interval = processor_interval allocate rand v.later.lo;
        is_running = false;
      },
    );
  }

  pub replace_processor-state :
      (v : Shape) (w b : ℕ)
      → ptr v.writer ≡ some w
      → ptr v.buffer ≡ some b
      → replace_processor allocate rand (state v) ≡ some (state (reprocess w b v))
  unfolding replace_processor
  replace_processor-state v w b e₁ e₂ =
      rw (delete_any-pool v.processor, delete_any-pool v.handler, e₁, e₂) refl

  -- Which of the blocks of `configure` run.
  abbrev pub log_stale : Profiler → Bool
  log_stale p = is_null p.processor || not (same p.configuration.log_file_path p.live.log_file_path)

  abbrev pub frames_stale : Profiler → Bool
  frames_stale p = not (p.configuration.max_frames_to_capture == p.live.max_frames_to_capture)

  abbrev pub bounds_stale : Profiler → Bool
  bounds_stale p =
      not (p.configuration.sampling_interval_min == p.live.sampling_interval_min)
      || not (p.configuration.sampling_interval_max == p.live.sampling_interval_max)

  pub configure_all :
      (g : Text) (p p₁ p₂ p₃ : Profiler)
      → log_stale p ≡ true
      → replace_log allocate rand g p ≡ some p₁
      → replace_buffer allocate rand p₁ ≡ some p₂
      → replace_processor allocate rand p₂ ≡ some p₃
      → configure allocate rand g p ≡ some (record p₃ { reload_config = false })
  unfolding configure
  configure_all g p p₁ p₂ p₃ s e₁ e₂ e₃ = rw (s, e₁, e₂, e₃) refl

  pub configure_frames :
      (g : Text) (p p₂ p₃ : Profiler)
      → log_stale p ≡ false
      → frames_stale p ≡ true
      → replace_buffer allocate rand p ≡ some p₂
      → replace_processor allocate rand p₂ ≡ some p₃
      → configure allocate rand g p ≡ some (record p₃ { reload_config = false })
  unfolding configure
  configure_frames g p p₂ p₃ s f e₂ e₃ = rw (s, f, e₂, e₃) refl

  pub configure_bounds :
      (g : Text) (p p₃ : Profiler)
      → log_stale p ≡ false
      → frames_stale p ≡ false
      → bounds_stale p ≡ true
      → replace_processor allocate rand p ≡ some p₃
      → configure allocate rand g p ≡ some (record p₃ { reload_config = false })
  unfolding configure
  configure_bounds g p p₃ s f b e₃ = rw (s, f, b, e₃) refl

  pub configure_none :
      (g : Text) (p : Profiler)
      → log_stale p ≡ false
      → frames_stale p ≡ false
      → bounds_stale p ≡ false
      → configure allocate rand g p ≡ some (record p { reload_config = false })
  unfolding configure
  configure_none g p s f b = rw (s, f, b) refl
