-- ===== src/Automation/Bus/Replay.antt =====
-- Publishing an event again is harmless.
use mathlib.Core.Path.{subst}
use himate_system.Base.{
  ℕ, ◌≡◌, refl, true, false, not, ◌||◌, Option, none, some, arith, find, find-concat_self, ◌∙◌, ok,
  Text, text_eq_refl, trim_space, is_empty, byte_len, ltb, ltb_ℤ, pos,
}
use himate_system.Automation.Bus.{
  Bus, BusEvent, EventInput, Envelope, Published, normalized, db_time, db_timestamp, has_event_key,
  store_event, replay_event, store_or_replay, publish_event, matches_event_type,
}

db_timestamp_idem : (t : ℕ) → db_timestamp (db_timestamp t) ≡ db_timestamp t
unfolding db_timestamp
db_timestamp_idem t = omega arith

db_timestamp-db_time :
    (o : Option ℕ) (t : ℕ) → db_timestamp t ≡ t → db_timestamp (db_time o t) ≡ db_time o t
db_timestamp-db_time none t h = h
db_timestamp-db_time (some x) t h = db_timestamp_idem x

-- Resolving the times of a replay against the stored ones gives the stored ones.
replayed_time :
    (o : Option ℕ) (t : ℕ)
    → db_timestamp t ≡ t
    → db_timestamp (db_time o (db_time o t)) ≡ db_time o t
replayed_time none t h = h
replayed_time (some x) t h = db_timestamp_idem x

module _ (hash : Envelope → Text) where
  -- What the tests before the transaction say of an input.
  abbrev pub Passes : EventInput → Type 0
  Passes input =
      ((is_empty (trim_space input.event_key)
          || ltb 200 (byte_len (trim_space input.event_key))
          || not (matches_event_type (trim_space input.event_type)))
        ≡ false)
      × (ltb_ℤ input.event_version (pos 0) ≡ false)

  abbrev pub first_envelope : ℕ → Text → EventInput → Envelope
  first_envelope now service input =
      let occurred = db_time input.occurred_at (db_timestamp now) in
      normalized service input occurred (db_time input.available_at occurred)

  pub publish_event-eq-ok :
      (now : ℕ) (service : Text) (input : EventInput) (b : Bus) (r : Published × Bus)
      → publish_event hash now true (some service) (some input) b ≡ ok r
      → Passes input
        × (store_or_replay hash
              (find (has_event_key service (trim_space input.event_key)) b.events)
              service
              input
              (first_envelope now service input)
              b
            ≡ ok r)
  unfolding publish_event
  publish_event-eq-ok now service input b r h = ground arith

  publish_event-Passes :
      (now : ℕ) (service : Text) (input : EventInput) (b : Bus)
      → Passes input
      → publish_event hash now true (some service) (some input) b
        ≡ store_or_replay hash
            (find (has_event_key service (trim_space input.event_key)) b.events)
            service
            input
            (first_envelope now service input)
            b
  unfolding publish_event
  publish_event-Passes now service input b (p, q) = rw (p, q)

  -- The replay of an event that the first call stored.
  replay_stored :
      (now : ℕ) (service : Text) (input : EventInput) (id : ℕ) (b : Bus)
      → let e = first_envelope now service input in
        replay_event hash service input (record { id = id; envelope = e; envelope_hash = hash e }) b
        ≡ ok (record { id = id; duplicate = true; available_at = e.available_at }, b)
  unfolding replay_event
  replay_stored now service input id b =
      let occurred = replayed_time input.occurred_at (db_timestamp now) (db_timestamp_idem now) in
      let available =
        replayed_time input.available_at (db_time input.occurred_at (db_timestamp now))
          (db_timestamp-db_time input.occurred_at (db_timestamp now) (db_timestamp_idem now)) in
      rw (occurred, available, text_eq_refl)

  stored_then_replayed :
      (now later : ℕ) (service : Text) (input : EventInput) (b : Bus)
      → let e = first_envelope now service input in
        let s = store_event hash e b in
        let key = has_event_key service (trim_space input.event_key) in
        find key b.events ≡ none
        → store_or_replay hash
            (find key s.1.events)
            service
            input
            (first_envelope later service input)
            s.1
          ≡ ok (record { id = s.0.id; duplicate = true; available_at = s.0.available_at }, s.1)
  unfolding store_event
  stored_then_replayed now later service input b fresh =
      let e = first_envelope now service input in
      let row : BusEvent = record { id = b.next_event_id; envelope = e; envelope_hash = hash e } in
      let key = has_event_key service (trim_space input.event_key) in
      let mine : key row ≡ true =
        rw (text_eq_refl service, text_eq_refl (trim_space input.event_key)) refl in
      rw (find-concat_self key b.events row fresh mine)
        (replay_stored now service input b.next_event_id (store_event hash e b).1)

  pub replay_event-eq-ok :
      (service : Text) (input : EventInput) (old : BusEvent) (b b' : Bus) (p : Published)
      → replay_event hash service input old b ≡ ok (p, b')
      → (b' ≡ b) × (p ≡ record { id = p.id; duplicate = true; available_at = p.available_at })
  unfolding replay_event
  replay_event-eq-ok service input old b b' p h = (ground arith, ground arith)

  replayed_again :
      (o : Option BusEvent) (now later : ℕ) (service : Text) (input : EventInput) (b b' : Bus)
      (p : Published)
      → let key = has_event_key service (trim_space input.event_key) in
        find key b.events ≡ o
        → store_or_replay hash o service input (first_envelope now service input) b ≡ ok (p, b')
        → store_or_replay hash
            (find key b'.events)
            service
            input
            (first_envelope later service input)
            b'
          ≡ ok (record { id = p.id; duplicate = true; available_at = p.available_at }, b')
  replayed_again none now later service input b b' p f h =
      let s = store_event hash (first_envelope now service input) b in
      let same : s ≡ (p, b') = ground arith in
      subst
        (λ r.
          store_or_replay hash
            (find (has_event_key service (trim_space input.event_key)) r.1.events) service input
            (first_envelope later service input) r.1
          ≡ ok (record { id = r.0.id; duplicate = true; available_at = r.0.available_at }, r.1))
        same (stored_then_replayed now later service input b f)
  replayed_again (some old) now later service input b b' p f h =
      let (eb, ep) = replay_event-eq-ok service input old b b' p h in rw (eb, f, ← ep) (rw eb at h)

  -- An event that was accepted once is accepted again at any later time, with the first call's id and
  -- availability, marked as a duplicate, and without any change of the bus: no second event and
  -- no second delivery.
  pub publish_event_twice :
      (now later : ℕ) (service : Text) (input : EventInput) (b b' : Bus) (p : Published)
      → publish_event hash now true (some service) (some input) b ≡ ok (p, b')
      → publish_event hash later true (some service) (some input) b'
        ≡ ok (record { id = p.id; duplicate = true; available_at = p.available_at }, b')
  publish_event_twice now later service input b b' p h =
      let (pass, r) = publish_event-eq-ok now service input b (p, b') h in
      publish_event-Passes later service input b' pass
      ∙ replayed_again (find (has_event_key service (trim_space input.event_key)) b.events) now
          later service input b b' p refl r
