-- ===== src/Controller/Ends.antt =====
-- The loop of Controller::run (recorder/src/main/cpp/controller.cpp) around stop.
use fk_prof.Prelude.{
  ℕ, Bool, true, false, Option, none, some, List, [], ◌∷◌, ◌++◌, ◌≡◌, refl, sym, ap, ◌∙◌, ◌≢◌,
  arith,
}
use fk_prof.Prelude.Int.{ℤ}
use fk_prof.Agent.{Text}
use fk_prof.Profiler.Pool.{◌>>=◌}
use fk_prof.Profiler.Defs.{Profiler}
use fk_prof.Controller.{
  Around, Moment, stop_called, accept_fails, recv_fails, connection, Session, listener_closed,
  still_waiting, closed, also_sent, serve, accept_loop,
}

-- A session after what has been sent.
abbrev sent_before : List Text → Option Session → Option Session
sent_before xs o = o >>= (λ x. some (record x { sent = xs ++ x.sent }))

abbrev pub as_list : Option Text → List Text
as_list none = []
as_list (some t) = t ∷ []

bind-some :
    {A B : Type 0} (o : Option A) (f : A → Option B) (y : B)
    → o >>= f ≡ some y
    → (x : A) × (o ≡ some x) × (f x ≡ some y)
bind-some none f y e = absurd (ground arith)
bind-some (some x) f y e = (x, refl, e)

sent_before-none : (o : Option Session) → sent_before [] o ≡ o
sent_before-none none = refl
sent_before-none (some x) = refl

sent_before-also :
    (r : Option Text) (xs : List Text) (o : Option Session)
    → also_sent r (sent_before xs o) ≡ sent_before (as_list r ++ xs) o
sent_before-also none xs o = refl
sent_before-also (some t) xs none = refl
sent_before-also (some t) xs (some x) = refl

abbrev was : (s : Session) → Option Session → Session
was s none = s
was s (some x) = x

also_sent-some :
    (r : Option Text) (o : Option Session) (s : Session)
    → also_sent r o ≡ some s
    → (x : Session) × (o ≡ some x)
      × (x.left ≡ s.left)
      × (as_list r ++ x.sent ≡ s.sent)
      × (x.profiler ≡ s.profiler)
also_sent-some none o s e = (s, e, refl, refl, refl)
also_sent-some (some t) none s e = absurd (ground arith)
also_sent-some (some t) (some x) s e = (
  x,
  refl,
  ap (λ o. (was s o).left) e,
  ap (λ o. (was s o).sent) e,
  ap (λ o. (was s o).profiler) e,
)

closed_ends :
    (r : Option Text) (q : Profiler) (s : Session)
    → also_sent r (some (closed q)) ≡ some s
    → s.left ≢ still_waiting
closed_ends none q s e w =
    absurd
      (let n : listener_closed ≡ still_waiting = ap (λ o. (was s o).left) e ∙ w in ground arith)
closed_ends (some t) q s e w =
    absurd
      (let n : listener_closed ≡ still_waiting = ap (λ o. (was s o).left) e ∙ w in ground arith)

module _ (allocate : List ℕ → ℕ) (rand : ℕ → ℕ) where
  -- As long as the loop waits, it goes on with what comes next.
  abbrev Resumes : Bool → List Moment → Profiler → Session → Type 0
  Resumes running before p s =
      (on : Bool) × ((ms : List Moment)
        → accept_loop allocate rand running (before ++ ms) p
          ≡ sent_before s.sent (accept_loop allocate rand on ms s.profiler))

  resumes :
      (running : Bool) (before : List Moment) (p : Profiler) (s : Session)
      → accept_loop allocate rand running before p ≡ some s
      → s.left ≡ still_waiting
      → Resumes running before p s
  unfolding accept_loop
  resumes running [] p s e w = (
    running,
    λ ms.
        sym (sent_before-none (accept_loop allocate rand running ms p))
        ∙ ap (λ l. sent_before l (accept_loop allocate rand running ms p))
            (ap (λ o. (was s o).sent) e)
        ∙ ap (λ q. sent_before s.sent (accept_loop allocate rand running ms q))
            (ap (λ o. (was s o).profiler) e),
  )
  resumes running (stop_called ∷ before) p s e w = resumes false before p s e w
  resumes true (accept_fails ∷ before) p s e w = resumes true before p s e w
  resumes true (recv_fails ∷ before) p s e w = resumes true before p s e w
  resumes true (connection a n₁ n₂ t true ∷ before) p s e w =
      let (r, e₁, e₂) = bind-some (serve allocate rand a n₁ n₂ t p) _ s e in
      absurd (closed_ends r.0 r.1 s e₂ w)
  resumes true (connection a n₁ n₂ t false ∷ before) p s e w =
      let (r, e₁, e₂) = bind-some (serve allocate rand a n₁ n₂ t p) _ s e in
      let (x, ex, left, sents, prof) = also_sent-some r.0 _ s e₂ in
      let (on, again) = resumes true before r.1 x ex (left ∙ w) in
      (
        on,
        λ ms.
            ap (λ o. o >>= (λ r. also_sent r.0 (accept_loop allocate rand true (before ++ ms) r.1)))
              e₁
            ∙ ap (also_sent r.0) (again ms)
            ∙ sent_before-also r.0 x.sent (accept_loop allocate rand on ms x.profiler)
            ∙ ap (λ l. sent_before l (accept_loop allocate rand on ms x.profiler)) sents
            ∙ ap (λ q. sent_before s.sent (accept_loop allocate rand on ms q)) prof,
      )
  resumes false (accept_fails ∷ before) p s e w = absurd (closed_ends none p s e w)
  resumes false (recv_fails ∷ before) p s e w = absurd (closed_ends none p s e w)
  resumes false (connection a n₁ n₂ t stopped ∷ before) p s e w =
      let (r, e₁, e₂) = bind-some (serve allocate rand a n₁ n₂ t p) _ s e in
      absurd (closed_ends r.0 r.1 s e₂ w)

  -- A client served as the last one.
  abbrev pub last_served : Around → ℤ → ℤ → Text → Session → Option Session
  last_served a n₁ n₂ t s = serve allocate rand a n₁ n₂ t s.profiler >>= (λ r.
      some (record { left = listener_closed; sent = s.sent ++ as_list r.0; profiler = r.1 }))

  sent_last :
      (xs : List Text) (o : Option (Option Text × Profiler))
      → sent_before xs (o >>= (λ r. also_sent r.0 (some (closed r.1)))) ≡ (
          o >>= (λ r.
            some (record { left = listener_closed; sent = xs ++ as_list r.0; profiler = r.1 })))
  sent_last xs none = refl
  sent_last xs (some (none, q)) = refl
  sent_last xs (some (some t, q)) = refl

  serves_last :
      (on : Bool) (a : Around) (n₁ n₂ : ℤ) (t : Text) (after : List Moment) (q : Profiler)
      → accept_loop allocate rand on (connection a n₁ n₂ t true ∷ after) q
        ≡ (serve allocate rand a n₁ n₂ t q >>= (λ r. also_sent r.0 (some (closed r.1))))
  unfolding accept_loop
  serves_last true a n₁ n₂ t after q = refl
  serves_last false a n₁ n₂ t after q = refl

  -- Let the loop still wait after some moments. If stop is called while accept waits, or while the client is
  -- served that is accepted next, this client is served, with the profiler that the loop had, its reply
  -- is sent after all others, the listener is closed, and nothing that comes later is looked at.
  pub accept_loop-last :
      (running stopped : Bool) (before after : List Moment) (a : Around) (n₁ n₂ : ℤ) (t : Text)
      (p : Profiler) (s : Session)
      → accept_loop allocate rand running before p ≡ some s
      → s.left ≡ still_waiting
      → (accept_loop allocate rand running
            (before ++ stop_called ∷ connection a n₁ n₂ t stopped ∷ after)
            p
          ≡ last_served a n₁ n₂ t s)
        × (accept_loop allocate rand running (before ++ connection a n₁ n₂ t true ∷ after) p
            ≡ last_served a n₁ n₂ t s)
  unfolding accept_loop
  accept_loop-last running stopped before after a n₁ n₂ t p s e w =
      let (on, again) = resumes running before p s e w in
      let served = sent_last s.sent (serve allocate rand a n₁ n₂ t s.profiler) in
      (
        again (stop_called ∷ connection a n₁ n₂ t stopped ∷ after) ∙ served,
        again (connection a n₁ n₂ t true ∷ after)
            ∙ ap (sent_before s.sent) (serves_last on a n₁ n₂ t after s.profiler)
            ∙ served,
      )
