-- ===== src/Network/Channel/Order.antt =====
-- What a channel holds after any sequence of calls.
use cartridge_runtime.Prelude.{
  ℕ, ◌+◌, ◌-◌, ◌%◌, ◌≤◌, ◌≡◌, refl, sym, ap, subst, ◌∙◌, ◌⊎◌, inl, inr, Bool-cases, Bool, false,
  ◌||◌, Option, some, none, List, [], ◌∷◌, ◌++◌, arith, ltb, leb, ◌==◌, length, length-append,
}
use mathlib.Core.List.{append-nil, append_assoc}
use cartridge_runtime.Prelude.Text.{Bytes}
use cartridge_runtime.Prelude.Results.{ok, err}
use cartridge_runtime.Network.Limits.{
  Error, max_channel_messages, channel_quota, max_asset_bytes, max_message_bytes,
}
use cartridge_runtime.Prelude.Words.{saturating_add, u64_mod}
use cartridge_runtime.Network.Channel.{MessageChannel, new_channel, send, receive}

pub data Call : Type 0 where
  sends : Bytes → Call
  receives : Call

-- A channel, the messages it took and the messages it gave out, the oldest first.
pub record Traffic : Type 0 where
  pub channel : MessageChannel
  pub taken : List Bytes
  pub given : List Bytes

abbrev pub option_list : Option Bytes → List Bytes
option_list none = []
option_list (some m) = m ∷ []

unfoldable pub call : Traffic → Call → Traffic
call t (sends value) = elim (send t.channel value) [
  | ok c ↦ record t { channel = c; taken = t.taken ++ value ∷ [] }
  | err fault ↦ t
]
call t receives = record t {
  channel = (receive t.channel).1;
  given = t.given ++ option_list (receive t.channel).0;
}

unfoldable pub calls : Traffic → List Call → Traffic
calls t [] = t
calls t (c ∷ cs) = calls (call t c) cs

abbrev pub total_bytes : List Bytes → ℕ
total_bytes [] = 0
total_bytes (m ∷ ms) = length m + total_bytes ms

total_bytes-append : (xs ys : List Bytes) → total_bytes (xs ++ ys) ≡ total_bytes xs + total_bytes ys
total_bytes-append [] ys = omega arith
total_bytes-append (x ∷ xs) ys = omega (arith, total_bytes-append xs ys)

-- What was taken and not given is queued in order, within both quotas.
abbrev pub Fifo : Traffic → Type 0
Fifo t =
    (t.given ++ t.channel.queue ≡ t.taken)
    × (t.channel.bytes ≡ total_bytes t.channel.queue)
    × (t.channel.bytes ≤ t.channel.max_bytes)
    × (length t.channel.queue ≤ t.channel.max_messages)
    × (t.channel.max_bytes ≤ max_asset_bytes)

-- `send` either refuses or appends within both quotas.
send-cases :
    (c : MessageChannel) (value : Bytes)
    → c.max_bytes ≤ max_asset_bytes
    → ((fault : Error) × (send c value ≡ err fault))
      ⊎ ((send c value
            ≡ ok (record c { queue = c.queue ++ value ∷ []; bytes = c.bytes + length value }))
          × (c.bytes + length value ≤ c.max_bytes)
          × (length c.queue + 1 ≤ c.max_messages))
unfolding send
send-cases c value small = elim (Bool-cases full) [
  | inl e ↦ inl (channel_quota, rw e refl)
  | inr e ↦ inr (rw e refl, ground (arith, e, small), ground (arith, e, small))
]
  where
    full : Bool
    full =
        ltb max_message_bytes (length value)
        || leb c.max_messages (length c.queue)
        || ltb c.max_bytes (saturating_add c.bytes (length value))

receive-none : (c : MessageChannel) → c.queue ≡ [] → receive c ≡ (none, c)
unfolding receive
receive-none c e = cc

receive-some :
    (c : MessageChannel) (m : Bytes) (ms : List Bytes)
    → c.queue ≡ m ∷ ms
    → length m ≤ c.bytes
    → c.bytes ≤ max_asset_bytes
    → receive c ≡ (some m, record c { queue = ms; bytes = c.bytes - length m })
unfolding receive
receive-some c m ms e l b =
    rw (receive, e) (ap (λ n. (some m, record c { queue = ms; bytes = n })) exact)
  where
    exact : (c.bytes + u64_mod - length m) % u64_mod ≡ c.bytes - length m
    exact = omega (arith, l, b)

call-Fifo : (t : Traffic) (c : Call) → Fifo t → Fifo (call t c)
unfolding call
call-Fifo t (sends value) h = elim (send-cases t.channel value h.4) [
  | inl e ↦ rw (call, e.1) h
  | inr e ↦
      rw (call, e.0)
        (
          sym (append_assoc t.given t.channel.queue (value ∷ [])) ∙ ap (λ ms. ms ++ value ∷ []) h.0,
          omega (arith, h.1, total_bytes-append t.channel.queue (value ∷ [])),
          e.1,
          omega (arith, e.2, length-append t.channel.queue (value ∷ [])),
          h.4,
        )
]
call-Fifo t receives h = go t.channel.queue refl
  where
    go : (queue : List Bytes) → t.channel.queue ≡ queue → Fifo (call t receives)
    go [] e =
        rw (receive-none t.channel e)
          (ap (λ ms. ms ++ t.channel.queue) (append-nil t.given) ∙ h.0, h.1, h.2, h.3, h.4)
    go (m ∷ ms) e =
        let enough : length m ≤ t.channel.bytes = omega (arith, h.1, ap total_bytes e) in
        let few : t.channel.bytes ≤ max_asset_bytes = omega (arith, h.2, h.4) in
        rw (receive-some t.channel m ms e enough few) (
          append_assoc t.given (m ∷ []) ms ∙ ap (λ q. t.given ++ q) (sym e) ∙ h.0,
          omega (arith, h.1, ap total_bytes e, enough),
          omega (arith, h.2),
          omega (arith, h.3, ap length e),
          h.4,
        )

calls-from-Fifo : (t : Traffic) (cs : List Call) → Fifo t → Fifo (calls t cs)
unfolding calls
calls-from-Fifo t [] h = h
calls-from-Fifo t (c ∷ cs) h = calls-from-Fifo (call t c) cs (call-Fifo t c h)

abbrev pub fresh : MessageChannel → Traffic
fresh c = record { channel = c; taken = []; given = [] }

new_channel-Fifo :
    (max_messages max_bytes : ℕ) (c : MessageChannel)
    → new_channel max_messages max_bytes ≡ ok c
    → Fifo (fresh c)
unfolding new_channel
new_channel-Fifo max_messages max_bytes c e = elim (Bool-cases bad) [
  | inl b ↦ absurd (ground (arith, e, b))
  | inr b ↦ subst Fifo (ap fresh (made b)) (refl, refl, omega arith, omega arith, ground (arith, b))
]
  where
    bad : Bool
    bad =
        max_messages == 0
        || ltb max_channel_messages max_messages
        || max_bytes == 0
        || ltb max_asset_bytes max_bytes

    made :
        bad ≡ false
        → record { queue = []; max_messages = max_messages; max_bytes = max_bytes; bytes = 0 } ≡ c
    made b = ground (arith, e, b)

-- A new channel, after any sends and receives, has given out and holds, in this order, the messages that
-- it took, and holds no more messages and bytes than its quotas.
pub calls-Fifo :
    (max_messages max_bytes : ℕ) (c : MessageChannel)
    → new_channel max_messages max_bytes ≡ ok c
    → (cs : List Call) → Fifo (calls (fresh c) cs)
calls-Fifo max_messages max_bytes c e cs =
    calls-from-Fifo (fresh c) cs (new_channel-Fifo max_messages max_bytes c e)
