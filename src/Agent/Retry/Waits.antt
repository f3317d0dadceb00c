-- ===== src/Agent/Retry/Waits.antt =====
-- chipchamp/agent/retry.py: which calls are not tried again, and how long the others wait.
use chipchamp.Prelude.{
  ℕ, ◌+◌, ◌*◌, min, ◌≤◌, ◌≡◌, refl, sym, ap, subst, ◌∙◌, Bool, true, false, ◌&&◌, ◌||◌, Option,
  none, some, leb, ltb, ◌==◌, inl, inr, ◌⊎◌, arith, if◌then◌else◌,
}
use native.Mathlib.Nat.{mul-le-mul_left}
use chipchamp.Text.{Text, lower}
use chipchamp.Agent.Retry.{
  Reason, Fault, Failure, Header, absent, unreadable, milliseconds, never_codes, retry_codes, among,
  glitch_400, connection_of, status_code, by_code, classify, concluded, asked, cause_asks, wait,
  retry_after, backoff,
}

-- the tests of `by_code` on a client's error
retried :
    (never retry bad client odd : Bool) (r s t u v : Reason) (m : Bool × Reason)
    → client ≡ true
    → (if never
        then (false, r)
        else if retry
        then (true, s)
        else if bad
        then (if odd then (true, t) else (false, u))
        else if client
        then (false, v)
        else m).0
      ≡ true
    → (retry || bad && odd) ≡ true
retried true retry bad client odd r s t u v m c h = cc
retried false true bad client odd r s t u v m c h = refl
retried false false true client true r s t u v m c h = refl
retried false false true client false r s t u v m c h = cc
retried false false false true odd r s t u v m c h = cc
retried false false false false odd r s t u v m c h = cc

by_code-client :
    (f : Fault) (c : ℕ)
    → leb 400 c && ltb c 500 ≡ true
    → (by_code f (some c)).0 ≡ true
    → (among c retry_codes || c == 400 && glitch_400 (lower f.message)) ≡ true
unfolding by_code
by_code-client f c client h =
    retried (among c never_codes) (among c retry_codes) (c == 400) (leb 400 c && ltb c 500)
      (glitch_400 (lower f.message)) _ _ _ _ _ _ client h

later_asked :
    (late : Bool) (conn : Option Text) (later : Bool × Reason)
    → conn ≡ none
    → (concluded late conn later).0 ≡ true
    → later.0 ≡ true
later_asked true conn later q h = cc
later_asked false none later q h = h
later_asked false (some n) later q h = cc

-- A call whose exceptions are of no connection, and that the service answered with a client's error (400
-- to 499), is tried again only if its code is one of 408, 409, 425 and 429, or it is 400 and the
-- text tells of a sampling glitch.
pub classify-client_error :
    (e : Failure) (c : ℕ)
    → connection_of e ≡ none
    → status_code e ≡ some c
    → leb 400 c && ltb c 500 ≡ true
    → (classify e).0 ≡ true
    → (among c retry_codes || c == 400 && glitch_400 (lower e.fault.message)) ≡ true
unfolding classify
classify-client_error e c quiet code client h = by_code-client e.fault c client (
    ap (λ o. (by_code e.fault o).0) (sym code)
    ∙ later_asked e.fault.timed_out (connection_of e) (by_code e.fault (status_code e)) quiet h)

-- The failure has a header with a wait of that many milliseconds: its own, or its cause's if it has
-- none.
pub data Asks (e : Failure) (ms : ℕ) : Type 0 where
  itself : e.fault.header ≡ milliseconds ms → Asks e ms
  its_cause :
      (f : Fault)
      → e.fault.header ≡ absent
      → e.cause ≡ some f
      → f.header ≡ milliseconds ms
      → Asks e ms

-- A header asks for the answer, or none asks for a wait and there is no answer.
abbrev Honours : Failure → Option ℕ → Type 0
Honours e o =
    ((ms : ℕ) × Asks e ms × (o ≡ some (min 60000 ms))) ⊎ (((ms : ℕ) → Asks e ms → ⊥) × (o ≡ none))

own_header :
    (e : Failure)
    → (e.fault.header ≡ absent → ⊥)
    → {ms : ℕ} → Asks e ms
    → e.fault.header ≡ milliseconds ms
own_header e n (itself q) = q
own_header e n (its_cause f a c q) = absurd (n a)

header_of_cause :
    (e : Failure) (ms : ℕ)
    → e.fault.header ≡ absent
    → Asks e ms
    → (f : Fault) × (e.cause ≡ some f) × (f.header ≡ milliseconds ms)
header_of_cause e ms a (itself q) = cc
header_of_cause e ms a (its_cause f _ c q) = (f, c, q)

asked-Honours :
    (e : Failure) (f : Fault) (h : Header)
    → e.fault.header ≡ absent
    → e.cause ≡ some f
    → f.header ≡ h
    → Honours e (asked h none)
asked-Honours e f (milliseconds ms) a c q = inl (ms, its_cause f a c q, refl)
asked-Honours e f absent a c q = inr (λ ms k. let (g, d, r) = header_of_cause e ms a k in cc, refl)
asked-Honours e f unreadable a c q =
    inr (λ ms k. let (g, d, r) = header_of_cause e ms a k in cc, refl)

cause_asks-Honours :
    (e : Failure) (o : Option Fault)
    → e.fault.header ≡ absent
    → e.cause ≡ o
    → Honours e (cause_asks o)
cause_asks-Honours e none a c = inr (λ ms k. let (g, d, r) = header_of_cause e ms a k in cc, refl)
cause_asks-Honours e (some f) a c = asked-Honours e f f.header a c refl

retry_after-Honours : (e : Failure) → Honours e (retry_after e)
unfolding retry_after
retry_after-Honours e = go e.fault.header refl
  where
    go : (h : Header) → e.fault.header ≡ h → Honours e (asked h (cause_asks e.cause))
    go (milliseconds ms) q = inl (ms, itself q, refl)
    go absent q = cause_asks-Honours e e.cause q refl
    go unreadable q = inr (λ ms k. let r = own_header e (λ a. cc) k in cc, refl)

wait-Honours :
    (e : Failure) (o : Option ℕ) (linear jitter : ℕ)
    → jitter ≤ 1000
    → Honours e o
    → ((ms : ℕ) × Asks e ms × (wait o linear jitter ≡ 2000 * min 60000 ms))
      ⊎ (((ms : ℕ) → Asks e ms → ⊥)
          × (linear * 2000 ≤ wait o linear jitter)
          × (wait o linear jitter ≤ linear * 3000))
wait-Honours e o linear jitter j (inl (ms, a, q)) = inl (ms, a, ap (λ w. wait w linear jitter) q)
wait-Honours e o linear jitter j (inr (n, q)) =
    subst
      (λ w.
        ((ms : ℕ) × Asks e ms × (wait w linear jitter ≡ 2000 * min 60000 ms))
        ⊎ (((ms : ℕ) → Asks e ms → ⊥)
            × (linear * 2000 ≤ wait w linear jitter)
            × (wait w linear jitter ≤ linear * 3000)))
      (sym q) (inr (n, mul-le-mul_left linear (omega arith), mul-le-mul_left linear (omega arith)))

-- If a header of the failure, or else of its cause, asks for a wait, that is the wait, but at most a
-- minute; if none does, the wait stands between the linear back-off and one and a half times that.
pub backoff-within :
    (e : Failure) (attempt base jitter : ℕ)
    → jitter ≤ 1000
    → ((ms : ℕ) × Asks e ms × (backoff e attempt base jitter ≡ 2000 * min 60000 ms))
      ⊎ (((ms : ℕ) → Asks e ms → ⊥)
          × (base * (attempt + 1) * 2000 ≤ backoff e attempt base jitter)
          × (backoff e attempt base jitter ≤ base * (attempt + 1) * 3000))
unfolding backoff
backoff-within e attempt base jitter j =
    wait-Honours e (retry_after e) (base * (attempt + 1)) jitter j (retry_after-Honours e)
