-- ===== src/Net/Transfer/Send.antt =====
-- What is written to a connection.
use simple_dnsd.Base.{
  ℕ, zero, [], true, false, ◌∷◌, if◌then◌else◌, ap, bit_and, ◌/◌, ◌^◌, sym, suc, ◌+◌, ◌≤◌, ◌≡◌, ◌↔◌,
  refl, ap, sym, ◌∙◌, inl, inr, Bool, true, [], ◌++◌, ◌==◌, Bytes, length, take, drop,
  length-append, take-past, take-append-drop, length-drop, arith, Bool-cases,
}
use mathlib.Core.Path.{subst}
use mathlib.Core.List.{append_assoc, append-nil}
use simple_dnsd.Net.Calls.{Os}
use simple_dnsd.Net.Transfer.{send_rounds, send_all_bytes, send_message}
use simple_dnsd.Server.Frame.{send_dns_message}

-- A write to a connection: `sent` is all that the system took so far. It takes a first part of what it is
-- given.
pub record IsOutput {W : Type 0} (os : Os W) (fd : ℕ) (sent : W → Bytes) : Type 0 where
  pub bounded : (w : W) (bytes : Bytes) → (os.send w fd bytes).0 ≤ length bytes
  pub takes :
      (w : W) (bytes : Bytes)
      → sent (os.send w fd bytes).1 ≡ sent w ++ take (os.send w fd bytes).0 bytes

module _ {W : Type 0} (sent : W → Bytes) where
  -- From `w` on a first part of the bytes was written, all of them just when the call reports success.
  abbrev pub IsWritten : W → Bytes → Bool × W → Type 0
  IsWritten w bytes (done, w') =
      (k : ℕ) × (k ≤ length bytes)
      × ((done ≡ true) ↔ (k ≡ length bytes))
      × (sent w' ≡ sent w ++ take k bytes)

  -- A first part that was written, and then the rest.
  IsWritten-append :
      (w w1 : W) (bytes more : Bytes) (p : Bool × W)
      → sent w1 ≡ sent w ++ bytes
      → IsWritten w1 more p
      → IsWritten w (bytes ++ more) p
  IsWritten-append w w1 bytes more (done, w') first (k, below, all, rest) = (
    length bytes + k,
    omega (arith, length-append bytes more),
    ground (arith, length-append bytes more, all),
    rest
        ∙ ap (λ s. s ++ take k more) first
        ∙ append_assoc (sent w) bytes (take k more)
        ∙ ap (λ s. sent w ++ s) (sym (take-past bytes more (length bytes + k) k refl)),
  )

  IsWritten-drop :
      (w w1 : W) (bytes : Bytes) (n : ℕ) (p : Bool × W)
      → sent w1 ≡ sent w ++ take n bytes
      → IsWritten w1 (drop n bytes) p
      → IsWritten w bytes p
  IsWritten-drop w w1 bytes n p first rest =
      subst (λ b. IsWritten w b p) (take-append-drop n bytes)
        (IsWritten-append w w1 (take n bytes) (drop n bytes) p first rest)

  -- Nothing was written.
  IsWritten-none :
      (w w1 : W) (bytes : Bytes)
      → sent w1 ≡ sent w ++ []
      → IsWritten w bytes (length bytes == 0, w1)
  IsWritten-none w w1 bytes same = (0, omega arith, ground arith, same)

take-short : (a b : Bytes) (k : ℕ) → k ≤ length a → take k (a ++ b) ≡ take k a
take-short a b zero h = refl
take-short [] b (suc k) h = absurd (omega arith)
take-short (x ∷ a) b (suc k) h = ap (λ t. x ∷ t) (take-short a b k (omega arith))

take_all : (a : Bytes) (k : ℕ) → k ≡ length a → take k a ≡ a
take_all [] zero h = refl
take_all [] (suc k) h = refl
take_all (x ∷ a) zero h = absurd (omega arith)
take_all (x ∷ a) (suc k) h = ap (λ t. x ∷ t) (take_all a k (omega arith))

module _ {W : Type 0} (sent : W → Bytes) where
  -- One write after another, which is made only where the first wrote everything.
  IsWritten-then :
      (w : W) (bytes more : Bytes) (first next : Bool × W)
      → IsWritten sent w bytes first
      → IsWritten sent first.1 more next
      → IsWritten sent w (bytes ++ more) (if first.0 then next else (false, first.1))
  IsWritten-then w bytes more (true, w1) next (k, below, all, s) rest =
      IsWritten-append sent w w1 bytes more next
        (s ∙ ap (λ t. sent w ++ t) (take_all bytes k (all.0 refl))) rest
  IsWritten-then w bytes more (false, w1) next (k, below, all, s) rest = (
    k,
    omega (arith, length-append bytes more),
    ground (arith, all, length-append bytes more),
    s ∙ ap (λ t. sent w ++ t) (sym (take-short bytes more k below)),
  )

module _ {W : Type 0} {os : Os W} {fd : ℕ} {sent : W → Bytes} (o : IsOutput os fd sent) where
  send_rounds-IsWritten :
      (fuel : ℕ) (w : W) (bytes : Bytes)
      → length bytes ≤ fuel
      → IsWritten sent w bytes (send_rounds os fuel w fd bytes)
  unfolding send_rounds
  send_rounds-IsWritten zero w bytes h = IsWritten-none sent w w bytes (sym (append-nil (sent w)))
  send_rounds-IsWritten (suc fuel) w bytes h =
      let n = (os.send w fd bytes).0 in
      let w1 = (os.send w fd bytes).1 in
      elim (Bool-cases (length bytes == 0)) [
        | inl no_more ↦ rw no_more (0, omega arith, ground arith, sym (append-nil (sent w)))
        | inr more ↦ elim (Bool-cases (n == 0)) [
          | inl nothing ↦ rw (more, nothing) (n, o.bounded w bytes, ground arith, o.takes w bytes)
          | inr something ↦
              rw (more, something)
                (IsWritten-drop sent w w1 bytes n _ (o.takes w bytes) (
                  send_rounds-IsWritten fuel w1 (drop n bytes)
                    (ground (arith, length-drop n bytes))))
        ]
      ]

  send_all_bytes-IsWritten :
      (w : W) (bytes : Bytes) → IsWritten sent w bytes (send_all_bytes os w fd bytes)
  unfolding send_all_bytes
  send_all_bytes-IsWritten w bytes = send_rounds-IsWritten (length bytes) w bytes (omega arith)

  -- On a connection that takes bytes as `IsOutput` says, `sendDnsMessage` writes a first part of the two
  -- bytes of the length and the message behind them, in that order, and all of it just when it reports
  -- success.
  pub send_message-IsWritten :
      (w : W) (msg : Bytes) → IsWritten sent w (send_dns_message msg) (send_message os w fd msg)
  unfolding send_message send_dns_message
  send_message-IsWritten w msg =
      let head : Bytes = (bit_and (length msg / 2 ^ 8) 0xff) ∷ (bit_and (length msg) 0xff) ∷ [] in
      let first = send_all_bytes os w fd head in
      IsWritten-then sent w head msg first (send_all_bytes os first.1 fd msg)
        (send_all_bytes-IsWritten w head) (send_all_bytes-IsWritten first.1 msg)
