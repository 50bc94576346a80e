-- ===== src/Prawtos/Gate.antt =====
-- Who gets past the first two states of src/prawtos/prawtos.c.
pub mod Runs
use pdc_20221c.Prelude.{
  ℕ, zero, suc, ◌≡◌, ◌≢◌, refl, Option, none, some, Bool, true, false, List, [], ◌∷◌, ◌==◌,
  if◌then◌else◌, ◌>>=◌, >>=-eq-some, ℤ, pos, negsuc, length, arith, ap, sym, ◌∙◌, get_elem?,
  if_false, Bool-cases, inl, inr,
}
use mathlib.Core.Option.{some-injective}
use pdc_20221c.Buffer.{Buffer, buffer_write_ptr, buffer_read_ptr, buffer_write_adv, fill}
use pdc_20221c.Parser.Auth.{
  auth_consume, auth_is_done, auth_marshal, auth_success, auth_bad_credentials,
}
use pdc_20221c.Prawtos.{
  PrawtosWorld, check_credentials, auth_prawtos_process, auth_finished, auth_prawtos_read,
  auth_prawtos_write,
}
use pdc_20221c.Selector.{selector_set_interest_key, op_write}
use pdc_20221c.Session.Machine.Order.{by_test, by_status, by_sign, by_flag}
use pdc_20221c.Users.{UserList, user_check_credentials}

-- No name and password make an administrator.
abbrev pub Closed : UserList → Type 0
Closed l =
    (name pass : List ℕ) (r : ℕ) → user_check_credentials l name pass ≡ some r → (r == 0) ≡ false

module _ {H D : Type 0} where
  -- The states of a session that was not let in.
  pub data Locked (w : PrawtosWorld H D) : ℕ → Type 0 where
    reading : Locked w 0
    turned_away : (w.auth_status == auth_success) ≡ false → Locked w 1
    failed : Locked w 5

  -- What a handler leaves, if it returns.
  pub record Outside (n : ℕ) (w : PrawtosWorld H D) : Type 0 where
    pub locked : Locked w n
    pub closed : Closed w.users

  abbrev pub Leaves : Option (ℕ × PrawtosWorld H D) → Type 0
  Leaves run = (ret : ℕ) (w : PrawtosWorld H D) → run ≡ some (ret, w) → Outside ret w

  Leaves-some : (n : ℕ) (w : PrawtosWorld H D) → Outside n w → Leaves (some (n, w))
  Leaves-some n w o ret w' e =
      let same : n ≡ ret = ground (arith, some-injective (n, w) (ret, w') e) in
      let here : w ≡ w' = ground (arith, some-injective (n, w) (ret, w') e) in rw (← same, ← here) o

  Leaves-bind :
      {A : Type 0} (m : Option A) (f : A → Option (ℕ × PrawtosWorld H D))
      → ((a : A) → m ≡ some a → Leaves (f a))
      → Leaves (m >>= f)
  Leaves-bind m f h ret w e = let (a, e1, e2) = >>=-eq-some m f e in h a e1 ret w e2

  Outside-at : (n : ℕ) (w : PrawtosWorld H D) → Closed w.users → Locked w n → Outside n w
  Outside-at n w c l = record { locked = l; closed = c }

  refused_status :
      (w : PrawtosWorld H D) (status : ℕ)
      → Closed w.users
      → check_credentials w ≡ some status
      → (status == auth_success) ≡ false
  unfolding check_credentials
  refused_status w status closed e =
      let (r, e1, e2) =
        >>=-eq-some (user_check_credentials w.users w.auth.auth.uname w.auth.auth.passwd) _ e in
      let no_admin = closed w.auth.auth.uname w.auth.auth.passwd r e1 in
      let same : (if r == 0 then auth_success else auth_bad_credentials) ≡ status =
        some-injective _ status e2 in
      rw (← same) (rw no_admin refl)

  process-Leaves : (w : PrawtosWorld H D) → Closed w.users → Leaves (auth_prawtos_process w)
  unfolding auth_prawtos_process
  process-Leaves w closed = Leaves-bind (check_credentials w) _ (λ status e.
      Leaves-bind (auth_marshal w.write_buffer status) _ (λ (n, b) answer.
        let w' : PrawtosWorld H D = record w { write_buffer = b; auth_status = status } in
        Leaves-some _ w' (
          Outside-at _ w' closed
            (by_sign (Locked w') n 5 1 failed (turned_away (refused_status w status closed e))))))

  finished-Leaves : (w : PrawtosWorld H D) (fd : ℤ) → Closed w.users → Leaves (auth_finished w fd)
  unfolding auth_finished
  finished-Leaves w fd closed =
      Leaves-bind (selector_set_interest_key w.selector fd op_write) _ (λ (st, s) e.
        by_status Leaves st _ _ (process-Leaves (record w { selector = s }) closed)
          (Leaves-some 5 _ (Outside-at 5 _ closed failed)))

  pub read-Leaves :
      (w : PrawtosWorld H D) (fd : ℤ) (received : Option (List ℕ))
      → Closed w.users
      → Leaves (auth_prawtos_read w fd received)
  unfolding auth_prawtos_read
  read-Leaves w fd none closed =
      Leaves-bind (buffer_write_ptr w.read_buffer) _
        (λ _ e. Leaves-some 5 w (Outside-at 5 w closed failed))
  read-Leaves w fd (some bytes) closed = Leaves-bind (buffer_write_ptr w.read_buffer) _ (λ _ e0.
      Leaves-bind (buffer_write_adv (fill w.read_buffer bytes) (pos (length bytes))) _ (λ b e1.
        Leaves-bind (auth_consume b w.auth (some false)) _ (λ (st, p, b', error) e2.
          let w1 : PrawtosWorld H D = record w { auth = p; read_buffer = b' } in
          let run = if (auth_is_done st none).0 then auth_finished w1 fd else some (0, w1) in
          Leaves-bind run _ (λ (ret, w') ran.
            let o : Outside ret w' =
              by_test Leaves (auth_is_done st none).0 (auth_finished w1 fd) (some (0, w1))
                (finished-Leaves w1 fd closed) (Leaves-some 0 w1 (Outside-at 0 w1 closed reading))
                ret w' ran in
            Leaves-some _ w'
              (by_flag (λ n. Outside n w') error 5 ret (Outside-at 5 w' o.closed failed) o)))))

  pub write-Leaves :
      (w : PrawtosWorld H D) (fd : ℤ) (sent : Option ℕ)
      → Closed w.users
      → (w.auth_status == auth_success) ≡ false
      → Leaves (auth_prawtos_write w fd sent)
  unfolding auth_prawtos_write
  write-Leaves w fd sent closed refused =
      Leaves-bind (buffer_read_ptr w.write_buffer) _ (λ _ e ret w' ran.
        Leaves-some 5 w (Outside-at 5 w closed failed) ret w'
          (sym (if_false (w.auth_status == auth_success) _ _ refused) ∙ ran))
