-- ===== src/Jobs/Broker/Delivery.antt =====
-- The delivery of events by the broker of internal/service/jobs/broker.go.
use agent_fox.Table.{update_where}
use mathlib.Core.Bool.{false≢true}
use agent_fox.Jobs.Rows.{Event}
use agent_fox.Jobs.Broker.{
  Subscription, read, List, Turn, Event, length, ◌∷◌, publishes, false, [], subscriber_buffer,
  offer, true, turn, reads, ltb, follows, cancels, turns, subscription, publish, Broker,
  update_where,
}
use agent_fox.Prelude.{
  if◌then◌else◌, String, ◌≡◌, List, length, ◌≤◌, ◌∷◌, ◌++◌, false, [], arith, ◌==◌, true,
  append_assoc, Bool-cases, sym, ap, String_Eq, ◌∙◌, ltb, refl, inl, append_nil, length-append, inr,
  subst, map,
}

-- The events of a job that the turns publish.
unfoldable pub published_of : String → List Turn → List Event
published_of job [] = []
published_of job (publishes e ∷ as_) =
    let rest = published_of job as_ in if job == e.job_id then e ∷ rest else rest
published_of job (reads ∷ as_) = published_of job as_
published_of job (cancels ∷ as_) = published_of job as_

-- All that the subscriber has read and can still read.
abbrev pub delivered : Subscription → List Event
delivered s = s.received ++ s.channel

-- Of the events published so far, those delivered come first, and are all of them while the
-- subscription is not done; the channel is no longer than its buffer.
pub record IsFollowing (job : String) (all : List Event) (s : Subscription) : Type 0 where
  pub missed : List Event
  pub prefix : delivered s ++ missed ≡ all
  pub none_missed : s.done ≡ false → missed ≡ []
  pub buffer : length s.channel ≤ subscriber_buffer
  pub same : s.job_id ≡ job

read-delivered :
    (s : Subscription)
    → (delivered (read s) ≡ delivered s)
      × (length (read s).channel ≤ length s.channel)
      × ((read s).done ≡ s.done)
      × ((read s).job_id ≡ s.job_id)
unfolding read
read-delivered s = by_channel s.channel refl
  where
    by_channel :
        (c : List Event)
        → s.channel ≡ c
        → (delivered (read s) ≡ delivered s)
          × (length (read s).channel ≤ length s.channel)
          × ((read s).done ≡ s.done)
          × ((read s).job_id ≡ s.job_id)
    by_channel [] h = rw h (refl, omega arith, refl, refl)
    by_channel (e ∷ rest) h = rw h (append_assoc s.received (e ∷ []) rest, omega arith, refl, refl)

-- An event of the job that is published is delivered next, unless the subscriber is too far behind.
module _ {job : String} {all : List Event} (s : Subscription) (e : Event) where
  offered-IsFollowing :
      IsFollowing job all s → s.done ≡ false → IsFollowing job (all ++ e ∷ []) (offer e s)
  unfolding offer
  offered-IsFollowing h live = elim (Bool-cases (ltb (length s.channel) subscriber_buffer)) [
    | inl room ↦ rw room (record {
      missed = [];
      prefix =
          append_nil _
          ∙ sym (append_assoc s.received s.channel (e ∷ []))
          ∙ ap (λ l. l ++ e ∷ [])
              (sym (append_nil _)
                ∙ ap (λ l. delivered s ++ l) (sym (h.none_missed live))
                ∙ h.prefix);
      none_missed = λ _. refl;
      buffer = ground (arith, room, length-append s.channel (e ∷ []));
      same = h.same;
    })
    | inr full ↦ rw full (record {
      missed = h.missed ++ e ∷ [];
      prefix = sym (append_assoc (delivered s) h.missed (e ∷ [])) ∙ ap (λ l. l ++ e ∷ []) h.prefix;
      none_missed = λ d. absurd (false≢true (sym d));
      buffer = h.buffer;
      same = h.same;
    })
  ]

  missed-IsFollowing : IsFollowing job all s → s.done ≡ true → IsFollowing job (all ++ e ∷ []) s
  missed-IsFollowing h gone = record {
    missed = h.missed ++ e ∷ [];
    prefix = sym (append_assoc (delivered s) h.missed (e ∷ [])) ∙ ap (λ l. l ++ e ∷ []) h.prefix;
    none_missed = λ d. absurd (false≢true (sym d ∙ gone));
    buffer = h.buffer;
    same = h.same;
  }

turn-IsFollowing :
    (job : String) (all : List Event) (s : Subscription) (a : Turn)
    → IsFollowing job all s
    → IsFollowing job (all ++ published_of job (a ∷ [])) (turn s a)
unfolding turn published_of
turn-IsFollowing job all s (publishes e) h = elim (Bool-cases (job == e.job_id)) [
  | inl mine ↦ elim (Bool-cases s.done) [
    | inl gone ↦
        let f : follows e s ≡ false = ground (arith, gone) in
        rw (mine, f) (missed-IsFollowing s e h gone)
    | inr live ↦
        let f : follows e s ≡ true = rw (h.same, mine, live) refl in
        rw (mine, f) (offered-IsFollowing s e h live)
  ]
  | inr other ↦
      let f : follows e s ≡ false = rw (h.same, other) refl in rw (other, f, append_nil all) h
]
turn-IsFollowing job all s reads h =
    let (d, l, k, j) = read-delivered s in
    record {
      missed = h.missed;
      prefix = ap (λ x. x ++ h.missed) d ∙ h.prefix ∙ sym (append_nil all);
      none_missed = λ n. h.none_missed (sym k ∙ n);
      buffer = omega (arith, l, h.buffer);
      same = j ∙ h.same;
    }
turn-IsFollowing job all s cancels h = record {
  missed = h.missed;
  prefix = h.prefix ∙ sym (append_nil all);
  none_missed = λ d. absurd (false≢true (sym d));
  buffer = h.buffer;
  same = h.same;
}

published-one :
    (job : String) (a : Turn) (as_ : List Turn)
    → published_of job (a ∷ as_) ≡ published_of job (a ∷ []) ++ published_of job as_
unfolding published_of
published-one job (publishes e) as_ = ground arith
published-one job reads as_ = refl
published-one job cancels as_ = refl

turns-IsFollowing :
    (job : String) (all : List Event) (s : Subscription) (as_ : List Turn)
    → IsFollowing job all s
    → IsFollowing job (all ++ published_of job as_) (turns s as_)
unfolding turns published_of
turns-IsFollowing job all s [] h = rw (append_nil all) h
turns-IsFollowing job all s (a ∷ as_) h =
    let g =
      turns-IsFollowing job (all ++ published_of job (a ∷ [])) (turn s a) as_
        (turn-IsFollowing job all s a h) in
    subst (λ l. IsFollowing job l (turns (turn s a) as_))
      (append_assoc all (published_of job (a ∷ [])) (published_of job as_)
        ∙ ap (λ l. all ++ l) (sym (published-one job a as_)))
      g

-- However the publishing of events, the reads of a subscriber and its cancel are ordered, what it
-- has read and can still read are the first of the events that were published for its job since it
-- subscribed, in their order, and all of them while it is not done; and its channel never holds
-- more than its buffer.
pub turns_deliver :
    (job : String) (as_ : List Turn)
    → let s = turns (subscription false job) as_ in
      (missed : List Event) × (delivered s ++ missed ≡ published_of job as_)
      × (s.done ≡ false → missed ≡ [])
      × (length s.channel ≤ subscriber_buffer)
unfolding subscription
turns_deliver job as_ =
    let h = turns-IsFollowing job [] (subscription false job) as_ (record {
      missed = [];
      prefix = refl;
      none_missed = λ _. refl;
      buffer = omega arith;
      same = refl;
    }) in
    (h.missed, h.prefix, h.none_missed, h.buffer)

-- A publish of an open broker is the turn of each subscription.
pub publish-turn :
    (e : Event) (b : Broker)
    → b.closed ≡ false
    → (publish e b).subs ≡ map (λ s. turn s (publishes e)) b.subs
unfolding publish turn update_where
publish-turn e b open_ = rw open_ (each b.subs)
  where
    each :
        (ss : List Subscription)
        → update_where (follows e) (offer e) ss ≡ map (λ s. if follows e s then offer e s else s) ss
    each [] = refl
    each (s ∷ ss) = ap (λ l. (if follows e s then offer e s else s) ∷ l) (each ss)
