-- ===== src/DeviceLogin/Poll/Terminates.antt =====
-- `Poll` ends: by the deadline of the device code at the latest.
use ozone_oidc_proxy.Base.{
  ℕ, zero, suc, ◌+◌, ◌*◌, ◌≤◌, ◌<◌, ◌≡◌, refl, subst, ◌∙◌, ◌⊎◌, inl, inr, true, false, ◌&&◌, some,
  arith, ltb, if◌then◌else◌, ℤ, pos, negsuc, ◌≤ℤ◌, lt_ℤ, Result, ok, Bool-cases, max_int64,
}
use ozone_oidc_proxy.Text.{Text}
use ozone_oidc_proxy.Go.Clock.{Time, Duration, add, seconds, second, seconds_exact, plus}
use ozone_oidc_proxy.DeviceLogin.{Client, Endpoints, DeviceAuth, Token, Failure, Machine, post_form}
use ozone_oidc_proxy.DeviceLogin.Poll.{
  first_interval, slow_down, Turn, returns, again, round, poll_from, poll, deadline_of,
}
use ozone_oidc_proxy.DeviceLogin.Poll.Rounds.{
  IsTold, pending, slower, IsAgain, IsPolled, answer_of, round-IsAgain, poll_from-IsPolled,
}

-- What the clock is relied on for: a wait takes its time, and no call turns the clock back.
pub record IsClock (m : Machine) : Type 0 where
  pub now-sleep : (w : m.World) (n : ℕ) → m.now w + n ≤ m.now (m.sleep w (pos n))
  pub now-http_post : (w : m.World) (url form : Text) → m.now w ≤ m.now (m.http_post w url form).1

plus-slow_down :
    (n : ℕ) → n + 5 * second ≤ max_int64 → plus (pos n) slow_down ≡ pos (n + 5 * second)
unfolding plus
plus-slow_down n h = ground arith

add-pos : (t : Time) (n : ℕ) → add t (pos n) ≡ t + n
unfolding add
add-pos t n = omega arith

module _ (m : Machine) (clock : IsClock m) (c : Client) (ep : Endpoints) (da : DeviceAuth)
    (deadline : Time) (expires : lt_ℤ (pos 0) da.expires_in ≡ true) where
  open m use {World}

  -- An interval of at least a second, or the deadline has passed.
  abbrev IsPaced : World → Duration → Type 0
  IsPaced w interval =
      (deadline < m.now w) ⊎ ((n : ℕ) × (interval ≡ pos n) × (second ≤ n) × (n ≤ max_int64))

  now-answer_of :
      (w : World) (n : ℕ) → m.now w + n ≤ m.now (answer_of m c ep da deadline w (pos n)).1
  unfolding post_form
  now-answer_of w n =
      omega (arith, clock.now-sleep w n, clock.now-http_post (m.sleep w (pos n)) ep.token _)

  in_time-le :
      (now : Time) → (lt_ℤ (pos 0) da.expires_in && ltb deadline now) ≡ false → now ≤ deadline
  in_time-le now h = let late : ltb deadline now ≡ false = rw expires at h in ground arith

  next-IsPaced :
      (w w' : World) (n : ℕ) (next : Duration)
      → second ≤ n
      → n ≤ max_int64
      → m.now w + n ≤ m.now w'
      → deadline + 5 * second ≤ m.now w + max_int64
      → (next ≡ pos n) ⊎ (next ≡ plus (pos n) slow_down)
      → IsPaced w' next
  next-IsPaced w w' n next low high later room (inl same) = inr (n, same, low, high)
  next-IsPaced w w' n next low high later room (inr longer) =
      elim (Bool-cases (ltb max_int64 (n + 5 * second))) [
        | inl over ↦ inl (ground arith)
        | inr fits ↦
            let le : n + 5 * second ≤ max_int64 = ground arith in
            inr (n + 5 * second, longer ∙ plus-slow_down n le, omega arith, le)
      ]

  told-next :
      (a : Result Failure Token) (interval next : Duration)
      → IsTold a interval next
      → (next ≡ interval) ⊎ (next ≡ plus interval slow_down)
  told-next a interval next (pending e answer code same) = inl same
  told-next a interval next (slower e answer code longer) = inr longer

  again-IsPaced :
      (w : World) (interval : Duration) (w' : World) (next : Duration)
      → deadline + 5 * second ≤ m.now w + max_int64
      → IsPaced w interval
      → IsAgain m c ep da deadline w interval w' next
      → IsPaced w' next × (m.now w + second ≤ m.now w') × (m.now w ≤ deadline)
  again-IsPaced w interval w' next room (inl late) a =
      absurd (omega (arith, in_time-le (m.now w) a.asking.in_time))
  again-IsPaced w interval w' next room (inr (n, is_n, low, high)) a =
      let later : m.now w + n ≤ m.now w' = rw (a.behind, is_n) (now-answer_of w n) in
      (
        next-IsPaced w w' n next low high later room (
            subst (λ i. (next ≡ i) ⊎ (next ≡ plus i slow_down)) is_n
              (told-next _ interval next a.told)),
        omega arith,
        in_time-le (m.now w) a.asking.in_time,
      )

  -- With this much fuel the loop returns.
  poll_from-returns :
      (fuel : ℕ) (w : World) (interval : Duration)
      → deadline + 5 * second ≤ m.now w + max_int64
      → IsPaced w interval
      → deadline < m.now w + fuel * second
      → (r : Result Failure Token) × ((poll_from m c ep da (suc fuel) deadline w interval).0
          ≡ some r)
  unfolding poll_from
  poll_from-returns zero w interval room paced enough =
      go (round m c ep da deadline w interval).0 refl
    where
      go :
          (x : Turn)
          → (round m c ep da deadline w interval).0 ≡ x
          → (r : Result Failure Token) × ((poll_from m c ep da (suc zero) deadline w interval).0
              ≡ some r)
      go (returns r) e = (r, rw (e, poll_from))
      go (again next) e =
          let (_, _, early) =
            again-IsPaced w interval _ next room paced
              (round-IsAgain m c ep da deadline w interval next e) in
          absurd (omega arith)
  poll_from-returns (suc fuel) w interval room paced enough =
      go (λ w' next. poll_from-returns fuel w' next) (round m c ep da deadline w interval).0 refl
    where
      go :
          ((w' : World) (next : Duration)
            → deadline + 5 * second ≤ m.now w' + max_int64
            → IsPaced w' next
            → deadline < m.now w' + fuel * second
            → (r : Result Failure Token) × ((poll_from m c ep da (suc fuel) deadline w' next).0
                ≡ some r))
          → (x : Turn) → (round m c ep da deadline w interval).0 ≡ x
          → (r : Result Failure Token) × ((poll_from m c ep da
                (suc (suc fuel))
                deadline
                w
                interval).0
              ≡ some r)
      go ih (returns r) e = (r, rw (e, poll_from))
      go ih (again next) e =
          let w' = (round m c ep da deadline w interval).1 in
          let (still, later, _) =
            again-IsPaced w interval w' next room paced
              (round-IsAgain m c ep da deadline w interval next e) in
          let (r, ends) = ih w' next (omega arith) still (omega arith) in
          (r, rw (e, poll_from) ends)

first_interval-paced :
    (da : DeviceAuth)
    → da.interval ≤ℤ pos 9223372036
    → (n : ℕ) × (first_interval da ≡ pos n) × (second ≤ n) × (n ≤ max_int64)
first_interval-paced da h = within da.interval h
  where
    within :
        (i : ℤ)
        → i ≤ℤ pos 9223372036
        → (n : ℕ) × (seconds (if lt_ℤ (pos 1) i then i else pos 1) ≡ pos n)
          × (second ≤ n)
          × (n ≤ max_int64)
    within (pos i) h = elim (Bool-cases (lt_ℤ (pos 1) (pos i))) [
      | inl e ↦ (i * second, rw e (seconds_exact i (omega arith)), ground arith, omega arith)
      | inr e ↦ (second, rw e (seconds_exact 1 (omega arith)), omega arith, omega arith)
    ]
    within (negsuc i) h =
        let short : lt_ℤ (pos 1) (negsuc i) ≡ false = ground arith in
        (second, rw short (seconds_exact 1 (omega arith)), omega arith, omega arith)

-- A device code that expires ends the loop: with a fuel of two more than its seconds the call
-- returns, whatever the token endpoint answers, when the clock does not run backwards and neither
-- the polling interval nor the lifetime is too long for 64 bits of nanoseconds.
pub poll-returns :
    (m : Machine) (c : Client) (ep : Endpoints) (da : DeviceAuth) (w : m.World) (e : ℕ)
    → IsClock m
    → da.expires_in ≡ pos e
    → 0 < e
    → (e + 5) * second ≤ max_int64
    → da.interval ≤ℤ pos 9223372036
    → (r : Result Failure Token) × ((poll m c ep da (suc (suc e)) w).0 ≡ some r)
unfolding poll
poll-returns m c ep da w e clock lifetime some_time fits modest =
    let exact : deadline_of m c ep da w ≡ m.now w + e * second =
      rw (lifetime, seconds_exact e (omega arith), add-pos) refl in
    poll_from-returns m clock c ep da (deadline_of m c ep da w) (rw lifetime (ground arith)) (suc e)
      w (first_interval da) (rw exact (omega arith)) (inr (first_interval-paced da modest))
      (rw exact (omega arith))

-- A call that returns a token was granted it by the token endpoint: the last request was answered with
-- this token, which has an access token. Each request was sent before the deadline, uncancelled, behind
-- a wait of the interval. Each one before the last was answered with `authorization_pending`, and the
-- interval stayed as it was, or with `slow_down`, and the interval grew by five seconds.
pub poll-IsPolled :
    (m : Machine) (c : Client) (ep : Endpoints) (da : DeviceAuth) (fuel : ℕ) (w : m.World)
    (tok : Token)
    → (poll m c ep da fuel w).0 ≡ some (ok tok)
    → IsPolled m c ep da (deadline_of m c ep da w) w (first_interval da) tok
unfolding poll
poll-IsPolled m c ep da fuel w tok h =
    poll_from-IsPolled m c ep da (deadline_of m c ep da w) fuel w (first_interval da) tok h
