-- ===== src/Clock/Ticks.antt =====
-- The timers over any number of ticks.
use mathlib.Core.List.{append_assoc}
use hack_linux.Base.{
  ◌==◌, Bool-cases, ℕ, zero, suc, ◌+◌, ◌-◌, ◌≤◌, ◌≡◌, refl, sym, ap, ◌∙◌, inl, inr, List, [], ◌∷◌,
  ◌++◌, arith,
}
use hack_linux.Clock.{Timer, Call, timer_fn, fire, tick}
use hack_linux.Clock.Due.{due, NotBefore, no_timer, first}

-- The timers in n calls of do_timer.
unfoldable pub ticks : ℕ → List Timer → List Call → List Timer × List Call
unfolding tick
ticks zero ts calls = (ts, calls)
ticks (suc n) ts calls = let (rest, more) = ticks n ts calls in tick rest more

-- The calls of the functions in a list, on top of those before.
abbrev pub called : List (ℕ × ℕ) → List Call → List Call
called [] calls = calls
called ((at, fn) ∷ l) calls = called l (timer_fn fn ∷ calls)

called-append :
    (l m : List (ℕ × ℕ)) (calls : List Call) → called (l ++ m) calls ≡ called m (called l calls)
called-append [] m calls = refl
called-append ((at, fn) ∷ l) m calls = called-append l m (timer_fn fn ∷ calls)

pub data AtMost (n : ℕ) : List (ℕ × ℕ) → Type 0 where
  none_left : AtMost n []
  one : {at fn : ℕ} {l : List (ℕ × ℕ)} → at ≤ n → AtMost n l → AtMost n ((at, fn) ∷ l)

AtMost-append : {n : ℕ} {l m : List (ℕ × ℕ)} → AtMost n l → AtMost n m → AtMost n (l ++ m)
AtMost-append none_left b = b
AtMost-append (one p a) b = one p (AtMost-append a b)

AtMost-suc : {n : ℕ} {l : List (ℕ × ℕ)} → AtMost n l → AtMost (suc n) l
AtMost-suc none_left = none_left
AtMost-suc (one p a) = one (omega arith) (AtMost-suc a)

-- The timers that were due by tick n have been called in their order, and the others wait.
pub record Fired (n base : ℕ) (ts : List Timer) (calls : List Call) (r : List Timer × List Call)
    : Type 0 where
  pub front : List (ℕ × ℕ)
  pub split : due base ts ≡ front ++ due n r.0
  pub on_time : AtMost n front
  pub done : r.1 ≡ called front calls
  pub waits : NotBefore 1 0 r.0

fire-Fired : (n : ℕ) (ts : List Timer) (calls : List Call) → Fired n n ts calls (fire ts calls)
unfolding fire
fire-Fired n [] calls = record {
  front = [];
  split = refl;
  on_time = none_left;
  done = refl;
  waits = no_timer;
}
fire-Fired n (t ∷ ts) calls = elim (Bool-cases (t.jiffies == 0)) [
  | inr later ↦ rw later (record {
    front = [];
    split = refl;
    on_time = none_left;
    done = refl;
    waits = first (ground arith);
  })
  | inl now ↦
      let at : n + t.jiffies ≡ n = ground arith in
      let f = fire-Fired n ts (timer_fn t.fn ∷ calls) in
      rw now (record {
        front = (n, t.fn) ∷ f.front;
        split = ap (λ b. (b, t.fn) ∷ due b ts) at ∙ ap (λ l. (n, t.fn) ∷ l) f.split;
        on_time = one (omega arith) f.on_time;
        done = f.done;
        waits = f.waits;
      })
]

tick-Fired :
    (n : ℕ) (ts : List Timer) (calls : List Call)
    → NotBefore 1 0 ts
    → Fired (suc n) n ts calls (tick ts calls)
unfolding tick
tick-Fired n [] calls h = record {
  front = [];
  split = refl;
  on_time = none_left;
  done = refl;
  waits = no_timer;
}
tick-Fired n (t ∷ ts) calls (first p) =
    let f = fire-Fired (suc n) (record t { jiffies = t.jiffies - 1 } ∷ ts) calls in
    let same : n + t.jiffies ≡ suc n + (t.jiffies - 1) = omega arith in
    record {
      front = f.front;
      split = ap (λ b. (b, t.fn) ∷ due b ts) same ∙ f.split;
      on_time = f.on_time;
      done = f.done;
      waits = f.waits;
    }

-- If no timer of the list is overdue, then for any n the first n ticks call the functions of exactly
-- the timers that are due by tick n, each once and in the order of the list, and the others stay
-- in the list and are due when they were.
pub ticks-Fired :
    (n : ℕ) (ts : List Timer) (calls : List Call)
    → NotBefore 1 0 ts
    → Fired n 0 ts calls (ticks n ts calls)
unfolding ticks
ticks-Fired zero ts calls h = record {
  front = [];
  split = refl;
  on_time = none_left;
  done = refl;
  waits = h;
}
ticks-Fired (suc n) ts calls h =
    let f = ticks-Fired n ts calls h in
    let r = ticks n ts calls in
    let g = tick-Fired n r.0 r.1 f.waits in
    record {
      front = f.front ++ g.front;
      split = f.split ∙ (ap (λ l. f.front ++ l) g.split ∙ sym (append_assoc f.front g.front _));
      on_time = AtMost-append (AtMost-suc f.on_time) g.on_time;
      done =
          g.done ∙ (ap (λ c. called g.front c) f.done ∙ sym (called-append f.front g.front calls));
      waits = g.waits;
    }
