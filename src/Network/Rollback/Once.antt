-- ===== src/Network/Rollback/Once.antt =====
-- How often a window accepts a datagram.
use cartridge_runtime.Prelude.{
  ℕ, ◌+◌, ◌-◌, ◌≤◌, ◌<◌, ◌≡◌, refl, sym, ap, subst, ◌∙◌, ◌⊎◌, inl, inr, Bool, true, false, ◌&&◌,
  List, [], ◌∷◌, arith, ltb, leb, ◌==◌, if◌then◌else◌, Bool-cases,
}
use Prim.Native.Nat.{max}
use cartridge_runtime.Prelude.Words.{u64_mod, saturating_add}
use cartridge_runtime.Prelude.Sets.{keep}
use cartridge_runtime.Prelude.Results.{ok, err}
use cartridge_runtime.Network.Limits.{Result}
use cartridge_runtime.Network.Rollback.{
  RollbackDatagram, RollbackWindow, new_window, is_seen, advance, accept_advanced, accept,
}

-- The datagram has been accepted: it is in the window, or older than the window.
abbrev Gone : RollbackWindow → ℕ → ℕ → Type 0
Gone w tick sequence =
    (is_seen tick sequence w.seen ≡ true) ⊎ (tick + w.max_rollback_ticks < w.newest_tick)

-- Ticks are machine words.
abbrev pub Words : List RollbackDatagram → Type 0
Words [] = Unit
Words (p ∷ ps) = (p.tick < u64_mod) × Words ps

abbrev accepts : Result Bool → RollbackDatagram → ℕ → ℕ → ℕ
accepts (ok true) p tick sequence = if tick == p.tick && sequence == p.sequence then 1 else 0
accepts (ok false) p tick sequence = 0
accepts (err e) p tick sequence = 0

-- How often datagrams of this tick and sequence number are accepted.
unfoldable pub accepted : RollbackWindow → List RollbackDatagram → ℕ → ℕ → ℕ
accepted w [] tick sequence = 0
accepted w (p ∷ ps) tick sequence =
    accepts (accept w p).0 p tick sequence + accepted (accept w p).1 ps tick sequence

is_seen-keep :
    (tick sequence oldest : ℕ) (seen : List (ℕ × ℕ))
    → is_seen tick sequence seen ≡ true
    → oldest ≤ tick
    → is_seen tick sequence (keep (λ p. leb oldest p.0) seen) ≡ true
unfolding is_seen keep
is_seen-keep tick sequence oldest [] h l = cc
is_seen-keep tick sequence oldest ((t, n) ∷ seen) h l =
    ground (arith, h, l, is_seen-keep tick sequence oldest seen)

Gone-advance :
    (w : RollbackWindow) (t tick sequence : ℕ)
    → Gone w tick sequence
    → Gone (advance w t) tick sequence
unfolding advance
Gone-advance w t tick sequence (inr old) = inr (omega arith)
Gone-advance w t tick sequence (inl s) =
    elim (Bool-cases (leb (max w.newest_tick t - w.max_rollback_ticks) tick)) [
      | inl l ↦ inl (is_seen-keep tick sequence _ w.seen s (ground (arith, l)))
      | inr n ↦ inr (ground (arith, n))
    ]

accept_advanced-Gone :
    (v : RollbackWindow) (t n tick sequence : ℕ)
    → Gone v tick sequence
    → Gone (accept_advanced v t n).1 tick sequence
unfolding accept_advanced is_seen
accept_advanced-Gone v t n tick sequence g = ground (arith, g)

accept_advanced_new :
    (v : RollbackWindow) (t n : ℕ)
    → (accept_advanced v t n).0 ≡ ok true
    → (is_seen t n v.seen ≡ false) × (is_seen t n (accept_advanced v t n).1.seen ≡ true)
unfolding accept_advanced is_seen
accept_advanced_new v t n h = ground (arith, h)

accept-Gone :
    (w : RollbackWindow) (p : RollbackDatagram) (tick sequence : ℕ)
    → Gone w tick sequence
    → Gone (accept w p).1 tick sequence
unfolding accept
accept-Gone w p tick sequence g = ground (
  arith,
  g,
  accept_advanced-Gone (advance w p.tick) p.tick p.sequence tick sequence
      (Gone-advance w p.tick tick sequence g),
)

accept_word :
    (w : RollbackWindow) (p : RollbackDatagram)
    → w.newest_tick < u64_mod
    → p.tick < u64_mod
    → (accept w p).1.newest_tick < u64_mod
unfolding accept accept_advanced advance
accept_word w p h k = ground arith

accept_opened :
    (w : RollbackWindow) (p : RollbackDatagram)
    → (accept w p).0 ≡ ok true
    → (ltb (saturating_add p.tick w.max_rollback_ticks) w.newest_tick ≡ false)
      × (accept w p ≡ accept_advanced (advance w p.tick) p.tick p.sequence)
unfolding accept
accept_opened w p h = ground (arith, h)

advance_word :
    (w : RollbackWindow) (p : RollbackDatagram)
    → w.newest_tick < u64_mod
    → ltb (saturating_add p.tick w.max_rollback_ticks) w.newest_tick ≡ false
    → ¬ (p.tick + (advance w p.tick).max_rollback_ticks < (advance w p.tick).newest_tick)
unfolding advance
advance_word w p word h = λ k. ground (arith, h, k)

-- What is accepted was not gone, and is.
accept-true :
    (w : RollbackWindow) (p : RollbackDatagram)
    → w.newest_tick < u64_mod
    → (accept w p).0 ≡ ok true
    → (¬ Gone w p.tick p.sequence) × Gone (accept w p).1 p.tick p.sequence
accept-true w p word h =
    let (young, same) = accept_opened w p h in
    let (fresh, kept) =
      accept_advanced_new (advance w p.tick) p.tick p.sequence (ap (λ r. r.0) (sym same) ∙ h) in
    (
      λ g. elim (Gone-advance w p.tick p.tick p.sequence g) [
        | inl s ↦ ground (arith, s, fresh)
        | inr old ↦ advance_word w p word young old
      ],
      inl (subst (λ r. is_seen p.tick p.sequence r.1.seen ≡ true) (sym same) kept),
    )

accepts_cases :
    (r : Result Bool) (p : RollbackDatagram) (tick sequence : ℕ)
    → (accepts r p tick sequence ≡ 0)
      ⊎ ((r ≡ ok true)
          × (accepts r p tick sequence ≡ 1)
          × (tick ≡ p.tick)
          × (sequence ≡ p.sequence))
accepts_cases (ok true) p tick sequence = ground arith
accepts_cases (ok false) p tick sequence = inl refl
accepts_cases (err e) p tick sequence = inl refl

Gone-accepted :
    (w : RollbackWindow) (ps : List RollbackDatagram) (tick sequence : ℕ)
    → w.newest_tick < u64_mod
    → Words ps
    → Gone w tick sequence
    → accepted w ps tick sequence ≡ 0
unfolding accepted
Gone-accepted w [] tick sequence word ws g = refl
Gone-accepted w (p ∷ ps) tick sequence word (t, ws) g =
    let rest =
      Gone-accepted (accept w p).1 ps tick sequence (accept_word w p word t) ws
        (accept-Gone w p tick sequence g) in
    elim (accepts_cases (accept w p).0 p tick sequence) [
      | inl nothing ↦ omega (arith, nothing, rest)
      | inr (taken, _, e, f) ↦ absurd (
          (accept-true w p word taken).0
            (subst (λ s. Gone w p.tick s) f (subst (λ t. Gone w t sequence) e g)))
    ]

accepted_once :
    (w : RollbackWindow) (ps : List RollbackDatagram) (tick sequence : ℕ)
    → w.newest_tick < u64_mod
    → Words ps
    → accepted w ps tick sequence ≤ 1
unfolding accepted
accepted_once w [] tick sequence word ws = omega arith
accepted_once w (p ∷ ps) tick sequence word (t, ws) =
    elim (accepts_cases (accept w p).0 p tick sequence) [
      | inl nothing ↦ omega (
        arith,
        nothing,
        accepted_once (accept w p).1 ps tick sequence (accept_word w p word t) ws,
      )
      | inr (taken, one, e, f) ↦
          let g = (accept-true w p word taken).1 in
          let g' =
            subst (λ s. Gone (accept w p).1 tick s) (sym f)
              (subst (λ t. Gone (accept w p).1 t p.sequence) (sym e) g) in
          omega (
            arith,
            one,
            Gone-accepted (accept w p).1 ps tick sequence (accept_word w p word t) ws g',
          )
    ]

-- A window accepts no two datagrams with one tick and one sequence number, whatever datagrams it gets
-- and in whatever order, if their ticks are below 2^64.
pub accepted_le :
    (limit : ℕ) (w : RollbackWindow) (ps : List RollbackDatagram) (tick sequence : ℕ)
    → new_window limit ≡ ok w
    → Words ps
    → accepted w ps tick sequence ≤ 1
unfolding new_window
accepted_le limit w ps tick sequence n ws = accepted_once w ps tick sequence (ground (arith, n)) ws
