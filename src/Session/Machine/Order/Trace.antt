-- ===== src/Session/Machine/Order/Trace.antt =====
-- Runs of a session: the states that a sequence of events takes it through.
use pdc_20221c.Prelude.{
  ℕ, ◌≤◌, ◌≡◌, refl, suc, ◌+◌, if◌then◌else◌, Option, some, Bool, true, false, not, leb, ◌&&◌, ◌||◌,
  List, [], ◌∷◌, ◌>>=◌, >>=-eq-some, ◌==◌, inl, inr, Bool-cases, arith, ap, ◌∙◌, sym,
}
use mathlib.Core.Option.{some-injective}
use pdc_20221c.Stm.{StateMachine}
use pdc_20221c.Stm.Run.{start_of, start_of-current, start_of-initial}
use pdc_20221c.Session.Machine.{Session, Event, Key, Ready, stm_create, handle}
use pdc_20221c.Session.Machine.Order.{
  Follows, reading_hello, answering_hello, writing_hello, accepted, to_auth, reading_request,
  to_connecting, answering_request, connecting, connected, writing_request, to_copy, copying,
  to_done, lost_hello, lost_answer, lost_request, lost_connection, lost_reply,
}
use pdc_20221c.Session.Machine.Order.Runs.{IsSessionMachine, stm_create_lem, handle-Follows}

module _ {H D W : Type 0} where
  -- The events of a session, one after the other, and the states that the handlers return.
  unfoldable pub run :
      List (Ready × Event D)
      → StateMachine (Key H D W)
      → Session H D W
      → Option (List ℕ × StateMachine (Key H D W) × Session H D W)
  run [] stm s = some ([], stm, s)
  run ((kind, e) ∷ events) stm s = handle stm s kind e >>= λ (ret, stm1, s1).
      run events stm1 s1 >>= λ (rets, stm2, s2). some (ret ∷ rets, stm2, s2)

-- Each state may follow the one before it.
pub data Chain : ℕ → List ℕ → Type 0 where
  end : (c : ℕ) → Chain c []
  step : (c r : ℕ) (rs : List ℕ) → Follows c r → r ≤ 7 → Chain r rs → Chain c (r ∷ rs)

unfoldable pub visits : List ℕ → ℕ → Bool
visits [] n = false
visits (r ∷ rs) n = r == n || visits rs n

-- The number of times that the state changes.
unfoldable pub changes : ℕ → List ℕ → ℕ
changes c [] = 0
changes c (r ∷ rs) = if c == r then changes r rs else suc (changes r rs)

-- What `Follows` says in numbers: a session goes forward, only from one of the first six states, to
-- COPY only from REQUEST_WRITE, and past REQUEST_READ only from there or by a failure.
in_order : ℕ → ℕ → Bool
in_order c r = leb c r && leb c 5 && (not (r == 5) || leb 4 c) && (leb 2 c || leb r 2 || leb 6 r)

Follows-in_order : (c r : ℕ) → Follows c r → in_order c r ≡ true
unfolding in_order
Follows-in_order _ _ reading_hello = refl
Follows-in_order _ _ answering_hello = refl
Follows-in_order _ _ writing_hello = refl
Follows-in_order _ _ accepted = refl
Follows-in_order _ _ to_auth = refl
Follows-in_order _ _ reading_request = refl
Follows-in_order _ _ to_connecting = refl
Follows-in_order _ _ answering_request = refl
Follows-in_order _ _ connecting = refl
Follows-in_order _ _ connected = refl
Follows-in_order _ _ writing_request = refl
Follows-in_order _ _ to_copy = refl
Follows-in_order _ _ copying = refl
Follows-in_order _ _ to_done = refl
Follows-in_order _ _ lost_hello = refl
Follows-in_order _ _ lost_answer = refl
Follows-in_order _ _ lost_request = refl
Follows-in_order _ _ lost_connection = refl
Follows-in_order _ _ lost_reply = refl

unfoldable pub ordered : ℕ → List ℕ → Bool
ordered c [] = true
ordered c (r ∷ rs) = leb c r && ordered r rs

Chain-ordered : (c : ℕ) (rs : List ℕ) → Chain c rs → ordered c rs ≡ true
unfolding ordered in_order
Chain-ordered c [] (end _) = refl
Chain-ordered c (r ∷ rs) (step _ _ _ f le more) =
    ground (arith, Follows-in_order c r f, Chain-ordered r rs more)

Chain-live : (c : ℕ) (rs : List ℕ) → Chain c rs → visits rs 5 ≡ true → c ≤ 5
unfolding visits in_order
Chain-live c [] (end _) v = absurd (ground arith)
Chain-live c (r ∷ rs) (step _ _ _ f le more) v = elim (Bool-cases (visits rs 5)) [
  | inl later ↦ ground (arith, Follows-in_order c r f, Chain-live r rs more later)
  | inr not_later ↦ ground (arith, Follows-in_order c r f)
]

-- From a state of the first two on, COPY is reached through REQUEST_READ.
Chain-request :
    (c : ℕ) (rs : List ℕ) → Chain c rs → visits rs 5 ≡ true → leb 2 c || visits rs 2 ≡ true
unfolding visits in_order
Chain-request c [] (end _) v = absurd (ground arith)
Chain-request c (r ∷ rs) (step _ _ _ f le more) v = elim (Bool-cases (visits rs 5)) [
  | inl later ↦
      ground
        (arith, Follows-in_order c r f, Chain-live r rs more later, Chain-request r rs more later)
  | inr not_later ↦ ground (arith, Follows-in_order c r f)
]

-- Up to REQUEST_CONNECTING, COPY is reached through REQUEST_WRITE.
Chain-reply :
    (c : ℕ) (rs : List ℕ) → Chain c rs → visits rs 5 ≡ true → leb 4 c || visits rs 4 ≡ true
unfolding visits in_order
Chain-reply c [] (end _) v = absurd (ground arith)
Chain-reply c (r ∷ rs) (step _ _ _ f le more) v = elim (Bool-cases (visits rs 5)) [
  | inl later ↦
      ground
        (arith, Follows-in_order c r f, Chain-live r rs more later, Chain-reply r rs more later)
  | inr not_later ↦ ground (arith, Follows-in_order c r f)
]

-- The state changes at most as often as there are states ahead.
Chain-changes : (c : ℕ) (rs : List ℕ) → Chain c rs → c ≤ 7 → changes c rs + c ≤ 7
unfolding changes in_order
Chain-changes c [] (end _) h = omega arith
Chain-changes c (r ∷ rs) (step _ _ _ f le more) h =
    ground (arith, Follows-in_order c r f, Chain-changes r rs more le)

module _ {H D W : Type 0} (handler : H) (sniffer : W → List ℕ → Option W) where
  run-Chain :
      (events : List (Ready × Event D)) (stm stm' : StateMachine (Key H D W)) (s s' : Session H D W)
      (rets : List ℕ)
      → IsSessionMachine handler sniffer stm
      → run events stm s ≡ some (rets, stm', s')
      → Chain (start_of stm) rets
  unfolding run
  run-Chain [] stm stm' s s' rets v h =
      let none_left : [] ≡ rets = ground arith in rw (← none_left) (end (start_of stm))
  run-Chain ((kind, e) ∷ events) stm stm' s s' rets v h =
      let ((ret, stm1, s1), e1, h1) = >>=-eq-some (handle stm s kind e) _ h in
      let ((later, stm2, s2), e2, h2) = >>=-eq-some (run events stm1 s1) _ h1 in
      let (follows, le, v1, at) = handle-Follows handler sniffer kind stm stm1 s s1 e ret v e1 in
      let all : ret ∷ later ≡ rets = ground arith in
      let start = start_of-current stm1 ret at in
      rw (← all) (
        step (start_of stm) ret later follows le
          (rw start at (run-Chain events stm1 stm2 s1 s2 later v1 e2)))

  -- Any run of a session whose machine `stm_create` has made, over any events and results of system calls, as long as nothing
  -- aborts: the states only go forward, they change at most seven times, all are states of the table
  -- and so never one of the two of the authentication, and a session that copies has been in
  -- REQUEST_READ and in REQUEST_WRITE before.
  pub run_order :
      (events : List (Ready × Event D)) (memory stm stm' : StateMachine (Key H D W))
      (s s' : Session H D W) (rets : List ℕ)
      → stm_create handler sniffer memory ≡ some stm
      → run events stm s ≡ some (rets, stm', s')
      → Chain 0 rets
        × (ordered 0 rets ≡ true)
        × (changes 0 rets ≤ 7)
        × (visits rets 5 ≡ true → (visits rets 2 ≡ true) × (visits rets 4 ≡ true))
  run_order events memory stm stm' s s' rets made h =
      let (new, created, v, _, fresh) = stm_create_lem handler sniffer memory in
      let same : new ≡ stm = some-injective new stm (sym created ∙ made) in
      let start : start_of stm ≡ 0 =
        ap start_of (sym same) ∙ start_of-initial new fresh ∙ v.initial_eq in
      let chain : Chain 0 rets =
        rw start at (run-Chain events stm stm' s s' rets (rw same at v) h) in
      (
        chain,
        Chain-ordered 0 rets chain,
        omega (arith, Chain-changes 0 rets chain (omega arith)),
        λ copies. (Chain-request 0 rets chain copies, Chain-reply 0 rets chain copies),
      )
