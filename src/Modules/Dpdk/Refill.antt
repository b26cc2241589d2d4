-- ===== src/Modules/Dpdk/Refill.antt =====
-- dpdk.rs, `Dpdk::flush`: the queue and the buffers after it.
use omni_stack_rust.Base.{
  ℕ, zero, suc, ◌+◌, ◌-◌, ◌≤◌, ◌≡◌, ◌≢◌, refl, ap, ◌∙◌, Bool, false, none, some, List, [], ◌∷◌,
  ◌++◌, ok, length, length-append, take, drop, ◌==◌, arith,
}
use omni_stack_rust.Base.Word.{u64_mod, sub_word_fits}
use omni_stack_rust.Error.{memory_error, exhausted, value, error}
use omni_stack_rust.Modules.Dpdk.{Dpdk, handed, transmit, refill, after_transmit, flush}

-- Bursts that take at least one buffer each, and no more than wait, until none waits.
pub data Sends : List ℕ → ℕ → Type 0 where
  done : (bursts : List ℕ) → Sends bursts 0
  burst :
      (nb_tx waiting : ℕ) (bursts : List ℕ)
      → nb_tx ≤ suc waiting
      → Sends bursts (suc waiting - nb_tx)
      → Sends (nb_tx ∷ bursts) (suc waiting)

take-split : (n k m : ℕ) (xs : List ℕ) → n + k ≡ m → take n xs ++ take k (drop n xs) ≡ take m xs
take-split zero k m xs e = ap (λ i. take i xs) (omega (arith, e))
take-split (suc n) zero m [] e = ground (arith, e)
take-split (suc n) (suc k) zero [] e = absurd (omega (arith, e))
take-split (suc n) (suc k) (suc m) [] e = refl
take-split (suc n) k zero (x ∷ xs) e = absurd (omega (arith, e))
take-split (suc n) k (suc m) (x ∷ xs) e = ap (x ∷◌) (take-split n k m xs (omega (arith, e)))

-- However the card takes them, it is handed the buffers that wait, each once and in order.
pub transmit-handed :
    (debug : Bool) (bursts pkts : List ℕ) (waiting : ℕ)
    → Sends bursts waiting
    → transmit debug bursts pkts waiting ≡ some (ok (take waiting pkts))
unfolding transmit
transmit-handed debug bursts pkts zero s = refl
transmit-handed debug bursts pkts (suc waiting) (burst nb_tx _ rest le s) =
    let ih = transmit-handed debug rest (drop nb_tx pkts) (suc waiting - nb_tx) s in
    rw (transmit, sub_word_fits debug u64_mod (suc waiting) nb_tx le)
      (ap (handed (take nb_tx pkts)) ih
        ∙ ap (λ l. some (ok l))
            (take-split nb_tx (suc waiting - nb_tx) (suc waiting) pkts (omega (arith, le))))

length-drop : (n : ℕ) (xs : List ℕ) → length (drop n xs) ≡ length xs - n
length-drop zero xs = omega arith
length-drop (suc n) [] = omega arith
length-drop (suc n) (x ∷ xs) = omega (arith, length-drop n xs)

length-refilled :
    (fresh xs : List ℕ)
    → length fresh ≤ length xs
    → length (fresh ++ drop (length fresh) xs) ≡ length xs
length-refilled fresh xs h =
    omega (arith, length-append fresh (drop (length fresh) xs), length-drop (length fresh) xs)

-- When the card takes all the buffers that wait, in whatever bursts, `flush` returns with none waiting: the
-- card was handed those that waited, each once and in order. With fresh buffers for those that were sent, it
-- succeeds, the fresh ones are in front, and there are as many as before; without, it fails, and the buffers
-- that the card was given are still the next ones to be sent.
pub flush-refilled :
    (debug : Bool) (bursts fresh : List ℕ) (d : Dpdk)
    → d.tx_idx ≢ 0
    → d.tx_idx ≤ length d.tx_bufs
    → length fresh ≡ d.tx_idx
    → Sends bursts d.tx_idx
    → (filled : Dpdk) × (flush debug bursts (some fresh) d
        ≡ some (ok (take d.tx_idx d.tx_bufs, filled, value tt)))
      × (filled.tx_idx ≡ 0)
      × (filled.tx_bufs ≡ fresh ++ drop d.tx_idx d.tx_bufs)
      × (length filled.tx_bufs ≡ length d.tx_bufs)
      × (flush debug bursts none d
          ≡ some (
              ok
                (take d.tx_idx d.tx_bufs, record d { tx_idx = 0 }, error (memory_error exhausted))))
unfolding flush after_transmit refill
flush-refilled debug bursts fresh d some_wait fits count s =
    let sent = transmit-handed debug bursts d.tx_bufs d.tx_idx s in
    let waiting : (d.tx_idx == 0) ≡ false = ground (arith, some_wait) in
    (
      record d { tx_bufs = fresh ++ drop (length fresh) d.tx_bufs; tx_idx = 0 },
      rw (waiting, sent) refl,
      refl,
      ap (λ n. fresh ++ drop n d.tx_bufs) count,
      length-refilled fresh d.tx_bufs (omega (arith, count, fits)),
      rw (waiting, sent) refl,
    )
