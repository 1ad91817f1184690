-- ===== src/Session/Receive/Archived.antt =====
-- Which session of a record a message belongs to (decryptRatchetMessage of session/cipher.go).

use signal.Common.{
  ℕ, suc, ◌+◌, ◌≡◌, refl, ap, subst, ◌∙◌, true, false, Option, some, List, [], ◌∷◌, ◌++◌, Bytes,
  Error, ok, err, Result-cases, Bool-cases, inl, inr, length, take, ltb, if◌then◌else◌, arith,
}
use signal.Crypto.{Primitives}
use signal.Ratchet.{State, Message}
use signal.Ratchet.Receive.Outcome.{decrypt_failure_keeps_state}
use signal.Session.{Session, clone}
use signal.Session.Record.{Record, promote, without}
use signal.Session.Receive.{
  Attempt, none_opens, opened, refused, is_duplicate, decrypt_with, after_attempt, try_archived,
  finish_archived, after_current, decrypt_ratchet_message,
}

-- The session cannot decrypt the message, for a reason that does not stop the search.
pub record Passes {Q : Type 0} (P : Primitives) (random : ℕ → Option Bytes) (msg : Message)
    (number : ℕ) (c : Session Q) : Type 0 where
  pub reason : Error
  pub fails : (decrypt_with P random msg number c).0 ≡ err reason
  pub goes_on : is_duplicate reason ≡ false

-- The position behind the sessions.
abbrev position : {A : Type 0} → ℕ → List A → ℕ
position i [] = i
position i (x ∷ xs) = position (suc i) xs

position-length : {A : Type 0} (i : ℕ) (xs : List A) → position i xs ≡ length xs + i
position-length i [] = omega arith
position-length i (x ∷ xs) = position-length (suc i) xs ∙ omega arith

without-length :
    {A : Type 0} (before : List A) (x : A) (after : List A)
    → without (some (length before)) (before ++ (x ∷ after)) ≡ before ++ after
unfolding without
without-length [] x after = refl
without-length (b ∷ before) x after = ap (λ l. b ∷ l) (without-length before x after)

-- The front of the list that a record has room for.
unfoldable pub at_most {ℓ} : {A : Type ℓ} → ℕ → List A → List A
at_most n xs = if ltb n (length xs) then take n xs else xs

abbrev Fails : {Q : Type 0} → Attempt Q → Type 0
Fails none_opens = Unit {0}
Fails (opened text i c) = ⊥
Fails (refused e) = Unit {0}

module _ (P : Primitives) {Q : Type 0} (random : ℕ → Option Bytes) (msg : Message) where
  failure-keeps :
      (number : ℕ) (c : Session Q) (e : Error)
      → (decrypt_with P random msg number c).0 ≡ err e
      → (decrypt_with P random msg number c).1 ≡ c.ratchet_state
  unfolding decrypt_with
  failure-keeps number c e h =
      decrypt_failure_keeps_state P (random number) msg c.associated_data c.ratchet_state e h

  failed_pair :
      (number : ℕ) (c : Session Q) (e : Error)
      → (decrypt_with P random msg number c).0 ≡ err e
      → decrypt_with P random msg number c ≡ (err e, c.ratchet_state)
  failed_pair number c e h = let k = failure-keeps number c e h in λ i. (h i, k i)

  -- The sessions that the message passes are left as they were.
  try_archived-Passes :
      (i : ℕ) (c : Session Q) (rest : List (Session Q))
      → Passes P random msg (suc i) c
      → try_archived P random msg i (c ∷ rest) ≡ (
        (try_archived P random msg (suc i) rest).0,
        c ∷ (try_archived P random msg (suc i) rest).1,
      )
  unfolding try_archived after_attempt
  try_archived-Passes i c rest p = rw (failed_pair (suc i) c p.reason p.fails, p.goes_on) refl

  try_archived-opens :
      (i : ℕ) (c : Session Q) (rest : List (Session Q)) (text : Bytes) (t : State)
      → decrypt_with P random msg (suc i) c ≡ (ok text, t)
      → try_archived P random msg i (c ∷ rest)
        ≡ (opened text i (record c { ratchet_state = t }), record c { ratchet_state = t } ∷ rest)
  unfolding try_archived after_attempt
  try_archived-opens i c rest text t e = rw e refl

  -- The message passes the sessions from position i on.
  abbrev pub PassesAll : ℕ → List (Session Q) → Type 0
  PassesAll i [] = Unit {0}
  PassesAll i (c ∷ rest) = Passes P random msg (suc i) c × PassesAll (suc i) rest

  try_archived-first :
      (i : ℕ) (before : List (Session Q)) (c : Session Q) (after : List (Session Q)) (text : Bytes)
      (t : State)
      → PassesAll i before
      → decrypt_with P random msg (suc (position i before)) c ≡ (ok text, t)
      → try_archived P random msg i (before ++ (c ∷ after)) ≡ (
        opened text (position i before) (record c { ratchet_state = t }),
        before ++ (record c { ratchet_state = t } ∷ after),
      )
  try_archived-first i [] c after text t h e = try_archived-opens i c after text t e
  try_archived-first i (b ∷ before) c after text t (p, h) e =
      let later = try_archived-first (suc i) before c after text t h e in
      try_archived-Passes i b (before ++ (c ∷ after)) p ∙ ap (λ r. (r.0, b ∷ r.1)) later

  -- A session of the archive opens the message when the current session and the archived ones before it
  -- refuse it with an error other than that of a duplicate: the text is what the archived session gives, that session
  -- becomes the current one, and the archive is the former current session before the other archived
  -- ones, as many as the record may keep.
  pub decrypt_ratchet_message-promotes :
      (r : Record Q) (before : List (Session Q)) (c : Session Q) (after : List (Session Q))
      (text : Bytes) (t : State)
      → r.archived ≡ before ++ (c ∷ after)
      → Passes P random msg 0 r.current
      → PassesAll 0 before
      → decrypt_with P random msg (suc (length before)) c ≡ (ok text, t)
      → decrypt_ratchet_message P random msg r ≡ (
        ok text,
        record {
          current = clone (record c { ratchet_state = t });
          archived = at_most r.max_archived (clone r.current ∷ (before ++ after));
          max_archived = r.max_archived;
        },
      )
  unfolding decrypt_ratchet_message after_current finish_archived promote at_most
  decrypt_ratchet_message-promotes r before c after text t has cur passed opens =
      let place : position 0 before ≡ length before = position-length 0 before ∙ omega arith in
      let found =
        try_archived-first 0 before c after text t passed
          (ap (λ n. decrypt_with P random msg (suc n) c) place ∙ opens) in
      rw
        (
          failed_pair 0 r.current cur.reason cur.fails,
          cur.goes_on,
          has,
          found,
          place,
          without-length before (record c { ratchet_state = t }) after,
        )
        refl

  try_archived-refuses :
      (i : ℕ) (c : Session Q) (rest : List (Session Q)) (e : Error)
      → (decrypt_with P random msg (suc i) c).0 ≡ err e
      → is_duplicate e ≡ true
      → try_archived P random msg i (c ∷ rest) ≡ (refused e, c ∷ rest)
  unfolding try_archived after_attempt
  try_archived-refuses i c rest e h stops = rw (failed_pair (suc i) c e h, stops) refl

  try_archived-Fails :
      (i : ℕ) (xs : List (Session Q))
      → Fails (try_archived P random msg i xs).0
      → (try_archived P random msg i xs).1 ≡ xs
  try_archived-Fails i [] h = unfold try_archived in refl
  try_archived-Fails i (c ∷ rest) h = elim (Result-cases (decrypt_with P random msg (suc i) c).0) [
    | inl (text, found) ↦
        let t = (decrypt_with P random msg (suc i) c).1 in
        absurd
          (subst Fails (ap (λ p. p.0) (try_archived-opens i c rest text t (λ k. (found k, t)))) h)
    | inr (e, bad) ↦ elim (Bool-cases (is_duplicate e)) [
      | inl stops ↦ ap (λ p. p.1) (try_archived-refuses i c rest e bad stops)
      | inr on ↦
          let passed : Passes P random msg (suc i) c = record {
            reason = e;
            fails = bad;
            goes_on = on;
          } in
          let same = try_archived-Passes i c rest passed in
          let h' = subst Fails (ap (λ p. p.0) same) h in
          ap (λ p. p.1) same ∙ ap (λ l. c ∷ l) (try_archived-Fails (suc i) rest h')
    ]
  ]

  finish_archived-Fails :
      (first e : Error) (r : Record Q) (p : Attempt Q × List (Session Q))
      → (finish_archived P random msg first r p).0 ≡ err e
      → Fails p.0 × ((finish_archived P random msg first r p).1 ≡ record r { archived = p.1 })
  unfolding finish_archived
  finish_archived-Fails first e r (none_opens, archived) h = (tt, refl)
  finish_archived-Fails first e r (opened text i c, archived) h = absurd (cc h)
  finish_archived-Fails first e r (refused x, archived) h = (tt, refl)

  -- When no session of the record opens the message, for whatever reason, the record stays as it was.
  pub decrypt_ratchet_message_failure_keeps_record :
      (r : Record Q) (e : Error)
      → (decrypt_ratchet_message P random msg r).0 ≡ err e
      → (decrypt_ratchet_message P random msg r).1 ≡ r
  unfolding decrypt_ratchet_message after_current
  decrypt_ratchet_message_failure_keeps_record r e h =
      elim (Result-cases (decrypt_with P random msg 0 r.current).0) [
        | inl (text, found) ↦
            let t = (decrypt_with P random msg 0 r.current).1 in
            let e' : decrypt_with P random msg 0 r.current ≡ (ok text, t) = λ k. (found k, t) in
            absurd (cc (rw e' at h))
        | inr (x, bad) ↦
            let e' = failed_pair 0 r.current x bad in
            elim (Bool-cases (is_duplicate x)) [
              | inl stops ↦ rw (e', stops) refl
              | inr on ↦
                  let h' = rw (e', on) at h in
                  let (fails, same) =
                    finish_archived-Fails x e r (try_archived P random msg 0 r.archived) h' in
                  rw (e', on)
                    (same
                      ∙ ap (λ l. record r { archived = l }) (try_archived-Fails 0 r.archived fails))
            ]
      ]
