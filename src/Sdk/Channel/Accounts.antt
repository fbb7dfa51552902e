-- ===== src/Sdk/Channel/Accounts.antt =====
-- The accounts of the calls of an `EventChannel`, and what keeps them.
use herdr_web_broker.Common.{
  ℕ, to_ℕ, ◌+◌, ◌≤◌, ◌≡◌, refl, String, Bool, ◌&&◌, Option, some, none, List, [], ◌∷◌, ◌++◌, leb,
  ltb, nat_eq, if◌then◌else◌, arith, ◌∙◌,
}
use herdr_web_broker.Common.IdMap.{IdMap, at, put, without}
use herdr_web_broker.Common.IdMap.Uses.{uses, uses-without, uses-put, at-uses}
use herdr_web_broker.Sdk.Channel.{
  Purpose, plain, subscribes, resubscribes, unsubscribes, Effect, probes, sends, resolves, rejects,
  Channel, does, open_socket, give_up, rpc_on, resubscribe, resubscribe_all, give_up_all,
  reject_all, on_close,
}
use herdr_web_broker.Sdk.Channel.Steps.{go_on, result, error, Answer, settle}
use herdr_web_broker.Sdk.Channel.Counts.{
  sent, settled, sent-append, settled-append, settled-reject_all, sent-reject_all, settled-probing,
  sent-probing,
}

-- Whether `id` is one that the channel has given out.
abbrev pub is_given : ℕ → Channel → Bool
is_given id c = leb 1 id && ltb id c.next_id

-- The call `id` is sent once if its id was given out, and is pending or settled once.
pub record IsSettled (id : ℕ) (c : Channel) : Type 0 where
  pub from_one : 1 ≤ c.next_id
  pub sent_once : sent id c.effects ≡ to_ℕ (is_given id c)
  pub balanced : settled id c.effects + uses id c.pending ≡ sent id c.effects

module _ (id : ℕ) where
  module _ (c : Channel) (v : IsSettled id c) where
    -- The accounts after more effects, from those before.
    pub after-IsSettled :
        (es : List Effect) (t : Channel)
        → 1 ≤ t.next_id
        → sent id c.effects + sent id es ≡ to_ℕ (is_given id t)
        → settled id c.effects + settled id es + uses id t.pending ≡ sent id c.effects + sent id es
        → IsSettled id (record t { effects = c.effects ++ es })
    after-IsSettled es t one once balance = record {
      from_one = one;
      sent_once = omega (arith, sent-append id c.effects es, once);
      balanced =
          omega (arith, sent-append id c.effects es, settled-append id c.effects es, balance);
    }

    -- The accounts after effects that tell of no call.
    pub quiet-IsSettled :
        (es : List Effect) (t : Channel)
        → t.next_id ≡ c.next_id
        → t.pending ≡ c.pending
        → sent id es ≡ 0
        → settled id es ≡ 0
        → IsSettled id (record t { effects = c.effects ++ es })
    quiet-IsSettled es t next pending p q =
        after-IsSettled es t (omega (arith, next, v.from_one))
          (rw next (omega (arith, p, v.sent_once))) (rw pending (omega (arith, p, q, v.balanced)))

    pub same-IsSettled :
        (t : Channel)
        → t.next_id ≡ c.next_id
        → t.pending ≡ c.pending
        → t.effects ≡ c.effects
        → IsSettled id t
    same-IsSettled t next pending effects = record {
      from_one = omega (arith, next, v.from_one);
      sent_once = rw (effects, next) v.sent_once;
      balanced = rw (effects, pending) v.balanced;
    }

    pub sends-IsSettled :
        (socket : ℕ) (p : Purpose)
        → IsSettled id (
            does
              (sends c.next_id socket ∷ [])
              (record c { next_id = c.next_id + 1; pending = put c.next_id p c.pending }))
    unfolding sent settled
    sends-IsSettled socket p =
        let fact = uses-put id c.next_id p c.pending in
        after-IsSettled (sends c.next_id socket ∷ [])
          (record c { next_id = c.next_id + 1; pending = put c.next_id p c.pending }) (omega arith)
          (ground (arith, v.from_one, v.sent_once))
          (ground (arith, fact, v.from_one, v.sent_once, v.balanced))

  pub give_up-IsSettled : (p : Purpose) (c : Channel) → IsSettled id c → IsSettled id (give_up p c)
  unfolding give_up sent settled
  give_up-IsSettled plain c v = v
  give_up-IsSettled (subscribes g) c v = v
  give_up-IsSettled (resubscribes g) c v =
      quiet-IsSettled c v _ (record c { groups = without g c.groups }) refl refl refl refl
  give_up-IsSettled unsubscribes c v = v

  pub rpc_on-IsSettled :
      (socket : Option ℕ) (p : Purpose) (c : Channel)
      → IsSettled id c
      → IsSettled id (rpc_on socket p c)
  unfolding rpc_on sent settled
  rpc_on-IsSettled none p c v = give_up-IsSettled p _ (quiet-IsSettled c v _ c refl refl refl refl)
  rpc_on-IsSettled (some socket) p c v = sends-IsSettled c v socket p

  pub resubscribe-IsSettled :
      (g : ℕ) (c : Channel) → IsSettled id c → IsSettled id (resubscribe g c)
  unfolding resubscribe
  resubscribe-IsSettled g c v =
      rpc_on-IsSettled (open_socket c.ws c.opened) (resubscribes g) _
        (same-IsSettled c v _ refl refl refl)

  pub resubscribe_all-IsSettled :
      (gs : IdMap (Unit {0})) (c : Channel) → IsSettled id c → IsSettled id (resubscribe_all gs c)
  unfolding resubscribe_all
  resubscribe_all-IsSettled [] c v = v
  resubscribe_all-IsSettled ((g, member) ∷ gs) c v =
      resubscribe_all-IsSettled gs (resubscribe g c) (resubscribe-IsSettled g c v)

  pub give_up_all-IsSettled :
      (ps : IdMap Purpose) (c : Channel) → IsSettled id c → IsSettled id (give_up_all ps c)
  unfolding give_up_all
  give_up_all-IsSettled [] c v = v
  give_up_all-IsSettled ((i, p) ∷ ps) c v = give_up_all-IsSettled ps _ (give_up-IsSettled p c v)

  pending-give_up : (p : Purpose) (c : Channel) → (give_up p c).pending ≡ c.pending
  unfolding give_up
  pending-give_up plain c = refl
  pending-give_up (subscribes g) c = refl
  pending-give_up (resubscribes g) c = refl
  pending-give_up unsubscribes c = refl

  pub pending-give_up_all :
      (ps : IdMap Purpose) (c : Channel) → (give_up_all ps c).pending ≡ c.pending
  unfolding give_up_all
  pending-give_up_all [] c = refl
  pending-give_up_all ((i, p) ∷ ps) c = pending-give_up_all ps (give_up p c) ∙ pending-give_up p c

  pub on_close-IsSettled :
      (socket : ℕ) (c : Channel) → IsSettled id c → IsSettled id (on_close socket c)
  unfolding on_close sent settled uses
  on_close-IsSettled socket c v =
      let probing = if c.wanted then probes ∷ [] else [] in
      let all_sent = sent-append id (reject_all c.pending) probing in
      let all_settled = settled-append id (reject_all c.pending) probing in
      let is_sent = sent-reject_all id c.pending in
      let is_settled = settled-reject_all id c.pending in
      give_up_all-IsSettled c.pending _ (
        after-IsSettled c v _ (record c { opened = without socket c.opened; pending = [] })
          v.from_one (omega (arith, all_sent, is_sent, sent-probing id c.wanted, v.sent_once))
          (omega (
            arith,
            all_sent,
            is_sent,
            sent-probing id c.wanted,
            all_settled,
            is_settled,
            settled-probing id c.wanted,
            v.balanced,
          )))

  at_most_one : (c : Channel) → IsSettled id c → uses id c.pending ≤ 1
  at_most_one c v = ground (arith, v.sent_once, v.balanced)

  gone-balanced :
      (i : ℕ) (ps : IdMap Purpose) (p : Purpose)
      → at i ps ≡ some p
      → uses id ps ≤ 1
      → to_ℕ (nat_eq i id) + uses id (without i ps) ≡ uses id ps
  gone-balanced i ps p h one = ground (arith, uses-without id i ps, at-uses i ps, h, one)

  pub go_on-IsSettled :
      (p : Purpose) (sub_id : String) (c : Channel)
      → IsSettled id c
      → IsSettled id (go_on p sub_id c)
  unfolding go_on
  go_on-IsSettled plain sub_id c v = v
  go_on-IsSettled (subscribes g) sub_id c v = same-IsSettled c v _ refl refl refl
  go_on-IsSettled (resubscribes g) sub_id c v = same-IsSettled c v _ refl refl refl
  go_on-IsSettled unsubscribes sub_id c v = v

  pub settle-IsSettled :
      (o : Option Purpose) (i : ℕ) (a : Answer) (c : Channel)
      → at i c.pending ≡ o
      → IsSettled id c
      → IsSettled id (settle o i a c)
  unfolding settle sent settled
  settle-IsSettled none i a c h v = v
  settle-IsSettled (some p) i (result sub_id) c h v = go_on-IsSettled p sub_id _ (
      after-IsSettled c v (resolves i ∷ []) (record c { pending = without i c.pending }) v.from_one
        (omega (arith, v.sent_once))
        (omega (arith, gone-balanced i c.pending p h (at_most_one c v), v.balanced)))
  settle-IsSettled (some p) i error c h v = give_up-IsSettled p _ (
      after-IsSettled c v (rejects i ∷ []) (record c { pending = without i c.pending }) v.from_one
        (omega (arith, v.sent_once))
        (omega (arith, gone-balanced i c.pending p h (at_most_one c v), v.balanced)))
