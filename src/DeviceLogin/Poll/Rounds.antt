-- ===== src/DeviceLogin/Poll/Rounds.antt =====
-- What a round of the loop does, and the rounds of a call as a relation.
use ozone_oidc_proxy.Base.{
  ◌*◌, ℕ, zero, suc, ◌≡◌, refl, sym, ap, ◌∙◌, inl, inr, false, ◌&&◌, some, ltb, is_nil, pos, lt_ℤ,
  Result, ok, err, Bool-cases,
}
use ozone_oidc_proxy.Text.{codes, text_eq}
use ozone_oidc_proxy.Text.Equality.{text_eq_sound}
use ozone_oidc_proxy.Go.Clock.{Time, Duration, plus, second}
use ozone_oidc_proxy.DeviceLogin.{
  Client, Endpoints, DeviceAuth, Token, OauthError, Failure, transport, status, unreadable, oauth,
  missing, cancelled, access_denied, expired, session_expired, Machine, post_form,
}
use ozone_oidc_proxy.DeviceLogin.Poll.{
  poll_form, Turn, returns, again, oauth_turn, answer_turn, round, poll_from,
}

-- An answer that tells the client to go on, and the interval of the next round: the same one where
-- the authorization is pending, and five seconds more where the client is to slow down.
pub data IsTold (a : Result Failure Token) (interval next : Duration) : Type 0 where
  pending :
      (e : OauthError)
      → a ≡ err (oauth e)
      → e.code ≡ codes "authorization_pending"
      → next ≡ interval
      → IsTold a interval next
  slower :
      (e : OauthError)
      → a ≡ err (oauth e)
      → e.code ≡ codes "slow_down"
      → next ≡ plus interval (pos (5 * second))
      → IsTold a interval next

oauth_turn-again :
    (e : OauthError) (interval next : Duration)
    → oauth_turn e interval ≡ again next
    → IsTold (err (oauth e)) interval next
unfolding oauth_turn
oauth_turn-again e interval next h =
    elim (Bool-cases (text_eq e.code (codes "authorization_pending"))) [
      | inl p ↦ pending e refl (text_eq_sound _ _ p) (cc (rw p at h))
      | inr p ↦ elim (Bool-cases (text_eq e.code (codes "slow_down"))) [
        | inl q ↦ slower e refl (text_eq_sound _ _ q) (cc (rw (p, q) at h))
        | inr q ↦ elim (Bool-cases (text_eq e.code (codes "access_denied"))) [
          | inl r ↦ cc (rw (p, q, r) at h)
          | inr r ↦ elim (Bool-cases (text_eq e.code (codes "expired_token"))) [
            | inl s ↦ cc (rw (p, q, r, s) at h)
            | inr s ↦ cc (rw (p, q, r, s) at h)
          ]
        ]
      ]
    ]

oauth_turn-returns :
    (e : OauthError) (interval : Duration) (tok : Token) (T : Type 0)
    → oauth_turn e interval ≡ returns (ok tok)
    → T
unfolding oauth_turn
oauth_turn-returns e interval tok T h =
    elim (Bool-cases (text_eq e.code (codes "authorization_pending"))) [
      | inl p ↦ cc (rw p at h)
      | inr p ↦ elim (Bool-cases (text_eq e.code (codes "slow_down"))) [
        | inl q ↦ cc (rw (p, q) at h)
        | inr q ↦ elim (Bool-cases (text_eq e.code (codes "access_denied"))) [
          | inl r ↦ cc (rw (p, q, r) at h)
          | inr r ↦ elim (Bool-cases (text_eq e.code (codes "expired_token"))) [
            | inl s ↦ cc (rw (p, q, r, s) at h)
            | inr s ↦ cc (rw (p, q, r, s) at h)
          ]
        ]
      ]
    ]

answer_turn-again :
    (a : Result Failure Token) (interval next : Duration)
    → answer_turn a interval ≡ again next
    → IsTold a interval next
unfolding answer_turn
answer_turn-again (ok tok) interval next h = elim (Bool-cases (is_nil tok.access_token)) [
  | inl e ↦ cc (rw e at h)
  | inr e ↦ cc (rw e at h)
]
answer_turn-again (err (oauth e)) interval next h = oauth_turn-again e interval next h
answer_turn-again (err transport) interval next h = cc
answer_turn-again (err (status n)) interval next h = cc
answer_turn-again (err unreadable) interval next h = cc
answer_turn-again (err missing) interval next h = cc
answer_turn-again (err cancelled) interval next h = cc
answer_turn-again (err access_denied) interval next h = cc
answer_turn-again (err expired) interval next h = cc
answer_turn-again (err session_expired) interval next h = cc

-- A round that returns a token has been answered with it, and it is not empty.
answer_turn-returns :
    (a : Result Failure Token) (interval : Duration) (tok : Token)
    → answer_turn a interval ≡ returns (ok tok)
    → (a ≡ ok tok) × (is_nil tok.access_token ≡ false)
unfolding answer_turn
answer_turn-returns (ok t) interval tok h = elim (Bool-cases (is_nil t.access_token)) [
  | inl e ↦ cc (rw e at h)
  | inr e ↦
      let same : t ≡ tok = cc (rw e at h) in
      (ap ok same, ap (λ (x : Token). is_nil x.access_token) (sym same) ∙ e)
]
answer_turn-returns (err (oauth e)) interval tok h = oauth_turn-returns e interval tok _ h
answer_turn-returns (err transport) interval tok h = cc
answer_turn-returns (err (status n)) interval tok h = cc
answer_turn-returns (err unreadable) interval tok h = cc
answer_turn-returns (err missing) interval tok h = cc
answer_turn-returns (err cancelled) interval tok h = cc
answer_turn-returns (err access_denied) interval tok h = cc
answer_turn-returns (err expired) interval tok h = cc
answer_turn-returns (err session_expired) interval tok h = cc

module _ (m : Machine) (c : Client) (ep : Endpoints) (da : DeviceAuth) (deadline : Time) where
  open m use {World}

  -- The world behind the wait and the request of a round.
  abbrev pub answer_of : World → Duration → Result Failure Token × World
  answer_of w interval = post_form m m.decode_token (m.sleep w interval) ep.token (poll_form c da)

  -- A round that asks: it is not cancelled, and the device code has not expired.
  pub record IsAsking (w : World) : Type 0 where
    pub wanted : m.is_cancelled w ≡ false
    pub in_time : (lt_ℤ (pos 0) da.expires_in && ltb deadline (m.now w)) ≡ false

  -- A round that is followed by another one.
  pub record IsAgain (w : World) (interval : Duration) (w' : World) (next : Duration) : Type 0 where
    pub asking : IsAsking w
    pub behind : w' ≡ (answer_of w interval).1
    pub told : IsTold (answer_of w interval).0 interval next

  -- A round that ends the call with a token.
  pub record IsGranted (w : World) (interval : Duration) (tok : Token) : Type 0 where
    pub asking : IsAsking w
    pub answer : (answer_of w interval).0 ≡ ok tok
    pub has_token : is_nil tok.access_token ≡ false

  pub round-IsAgain :
      (w : World) (interval next : Duration)
      → (round m c ep da deadline w interval).0 ≡ again next
      → IsAgain w interval (round m c ep da deadline w interval).1 next
  unfolding round
  round-IsAgain w interval next h = elim (Bool-cases (m.is_cancelled w)) [
    | inl e ↦ cc (rw (e, round) at h)
    | inr wanted ↦ elim (Bool-cases (lt_ℤ (pos 0) da.expires_in && ltb deadline (m.now w))) [
      | inl e ↦ cc (rw (wanted, e, round) at h)
      | inr in_time ↦
          rw (wanted, in_time)
            (record {
              asking = record { wanted = wanted; in_time = in_time };
              behind = refl;
              told = answer_turn-again _ interval next (rw (wanted, in_time) at h);
            })
    ]
  ]

  round-IsGranted :
      (w : World) (interval : Duration) (tok : Token)
      → (round m c ep da deadline w interval).0 ≡ returns (ok tok)
      → IsGranted w interval tok
  unfolding round
  round-IsGranted w interval tok h = elim (Bool-cases (m.is_cancelled w)) [
    | inl e ↦ cc (rw (e, round) at h)
    | inr wanted ↦ elim (Bool-cases (lt_ℤ (pos 0) da.expires_in && ltb deadline (m.now w))) [
      | inl e ↦ cc (rw (wanted, e, round) at h)
      | inr in_time ↦
          let (answer, has_token) =
            answer_turn-returns (answer_of w interval).0 interval tok (rw (wanted, in_time) at h) in
          record {
            asking = record { wanted = wanted; in_time = in_time };
            answer = answer;
            has_token = has_token;
          }
    ]
  ]

  -- Rounds of the loop, one after another: each asks, and is told how long the next one waits.
  pub data Rounds (w : World) (interval : Duration) : World → Duration → Type 0 where
    here : Rounds w interval w interval
    then_round :
        {w' w'' : World} {next last : Duration}
        → Rounds w interval w' next
        → IsAgain w' next w'' last
        → Rounds w interval w'' last

  prepend :
      {w w' : World} {interval next : Duration} {w'' : World} {last : Duration}
      → IsAgain w interval w' next
      → Rounds w' next w'' last
      → Rounds w interval w'' last
  prepend a here = then_round here a
  prepend a (then_round r b) = then_round (prepend a r) b

  -- How a call has been granted a token: rounds that were told to wait, and one that was not.
  pub record IsPolled (w : World) (interval : Duration) (tok : Token) : Type 0 where
    pub world : World
    pub last : Duration
    pub rounds : Rounds w interval world last
    pub granted : IsGranted world last tok

  pub poll_from-IsPolled :
      (fuel : ℕ) (w : World) (interval : Duration) (tok : Token)
      → (poll_from m c ep da fuel deadline w interval).0 ≡ some (ok tok)
      → IsPolled w interval tok
  unfolding poll_from
  poll_from-IsPolled zero w interval tok h = cc
  poll_from-IsPolled (suc fuel) w interval tok h =
      go (λ w' next e. poll_from-IsPolled fuel w' next tok e)
        (round m c ep da deadline w interval).0 refl
    where
      go :
          ((w' : World) (next : Duration)
            → (poll_from m c ep da fuel deadline w' next).0 ≡ some (ok tok)
            → IsPolled w' next tok)
          → (x : Turn) → (round m c ep da deadline w interval).0 ≡ x
          → IsPolled w interval tok
      go ih (returns r) e = record {
        world = w;
        last = interval;
        rounds = here;
        granted = round-IsGranted w interval tok (e ∙ ap returns (cc (rw (e, poll_from) at h)));
      }
      go ih (again next) e =
          let rest = ih (round m c ep da deadline w interval).1 next (rw (e, poll_from) at h) in
          record {
            world = rest.world;
            last = rest.last;
            rounds = prepend (round-IsAgain w interval next e) rest.rounds;
            granted = rest.granted;
          }
