-- ===== src/Modules/Ipv4/Receiver.antt =====
-- ipv4.rs, `Ipv4Receiver`: what it does to a packet, one that `Ipv4Sender` made among them.
use omni_stack_rust.Base.{
  ℕ, ◌+◌, ◌-◌, ◌*◌, ◌%◌, ◌^◌, ◌≤◌, ◌<◌, ◌≡◌, refl, ap, ◌∙◌, ◌⊎◌, inl, inr, Bool, true, false, ◌||◌,
  List, Outcome, ok, ◌>>=◌, suc, Ends, Ends-bind, get_elem?, arith, some, ltb, ◌==◌, bit_or,
}
use omni_stack_rust.Base.Bits.{bit_and-ones}
use omni_stack_rust.Base.Word.{u8_mod, u16_mod, add_word_fits, to_be16, to_be16_involutive}
use omni_stack_rust.Error.{Result, value, error, dropped}
use omni_stack_rust.Packet.{Packet, bytes, read8, read16, set_len}
use omni_stack_rust.Packet.Pool.{Mempool, World, load, store, deallocate}
use omni_stack_rust.Packet.Chain.{packets-store_self}
use omni_stack_rust.Packet.Pool.Counts.{
  GivenUp, count_of, count_of-store, deallocate-GivenUp, ne_==_false,
}
use native.Mathlib.Nat.{add-zero}
use omni_stack_rust.Modules.Pushed.{HasRoom}
use omni_stack_rust.Modules.Ipv4.{sender, receive, receiver}
use omni_stack_rust.Modules.Ipv4.Sender.{Ipv4Sent, first_byte, sender-Ipv4Sent}
use omni_stack_rust.Protocol.Header.{ihl, ipv4_header_size}
use omni_stack_rust.Protocol.Header.Version.{version_half, ihl_half}
use omni_stack_rust.Protocol.Route.{Route}

-- A header lies at the data: its first byte, total length (as a number) and time to live.
pub record HasHeader (first tot ttl : ℕ) (p : Packet) : Type 0 where
  pub first_at : get_elem? (bytes p) (p.offset + 0) ≡ some first
  pub tot_at : read16 p (p.offset + 2) ≡ ok (to_be16 tot)
  pub ttl_at : get_elem? (bytes p) (p.offset + 8) ≡ some ttl
  pub tot_small : tot + p.offset < u16_mod
  pub end_small : p.offset + 4 * ihl first < u16_mod

-- The packet without its header: the length is the header's, the data start behind it.
abbrev pub stripped : ℕ → ℕ → Packet → Packet
stripped first tot p = record p {
  l3_header = record { length = 4 * ihl first; offset = p.offset };
  len = tot + p.offset;
  offset = p.offset + 4 * ihl first;
}

ihl-lt : (first : ℕ) → ihl first < 16
unfolding ihl
ihl-lt first = omega (arith, bit_and-ones 4 first)

ihl_bytes : (first : ℕ) → ihl first * 2 ^ 2 % u8_mod ≡ 4 * ihl first
ihl_bytes first = omega (arith, ihl-lt first)

-- In either profile the header is read and taken off, and the test is on its length and time to live.
pub receive-value :
    (debug : Bool) (first tot ttl : ℕ) (p : Packet)
    → tot < u16_mod
    → HasHeader first tot ttl p
    → receive debug p ≡ ok (stripped first tot p, ltb (ihl first) 5 || ttl == 0)
unfolding receive read8 set_len
receive-value debug first tot ttl p h v = rw (
  v.first_at,
  v.tot_at,
  v.ttl_at,
  to_be16_involutive tot h,
  ihl_bytes first,
  add_word_fits debug u16_mod tot p.offset v.tot_small,
  add_word_fits debug u16_mod p.offset (4 * ihl first) v.end_small,
)

module _ (M : Mempool) where
  -- What `process` does after a header that it accepts, and after one that it refuses.
  abbrev pub Accepted : ℕ → Packet → World M → Outcome (World M × Result (Unit {0})) → Type 0
  Accepted ptr p w r = r ≡ ok (store M ptr p w, value tt)

  abbrev pub Refused :
      Bool → ℕ → ℕ → Packet → World M → Outcome (World M × Result (Unit {0})) → Type 0
  Refused debug ptr thread p w r =
      r ≡ (deallocate M debug ptr thread (store M ptr p w) >>= λ w'. ok (w', error dropped))

  -- A header of at least five words that may still be forwarded is taken off and the packet goes on;
  -- a shorter one, or one whose time to live is 0, and the packet's reference is given up. Nothing
  -- checks the version, nor that the header's total length is what was received.
  pub receiver_lem :
      (debug : Bool) (ptr thread first tot ttl : ℕ) (p : Packet) (w : World M)
      → w.packets ptr ≡ some p
      → tot < u16_mod
      → HasHeader first tot ttl p
      → (5 ≤ ihl first
          → 0 < ttl
          → Accepted ptr (stripped first tot p) w (receiver M debug ptr thread w))
        × ((ihl first < 5) ⊎ (ttl ≡ 0)
            → Refused debug ptr thread (stripped first tot p) w (receiver M debug ptr thread w))
  unfolding receiver load
  receiver_lem debug ptr thread first tot ttl p w at h v = (
    λ long alive. rw (at, receive-value debug first tot ttl p h v, test_passes long alive) refl,
    λ bad. rw (at, receive-value debug first tot ttl p h v, test_fails bad) refl,
  )
    where
      test_passes : 5 ≤ ihl first → 0 < ttl → (ltb (ihl first) 5 || ttl == 0) ≡ false
      test_passes long alive = ground arith

      test_fails : (ihl first < 5) ⊎ (ttl ≡ 0) → (ltb (ihl first) 5 || ttl == 0) ≡ true
      test_fails bad = ground arith

ihl-first_byte : (old : ℕ) → old < 256 → ihl (first_byte old) ≡ bit_or (ihl old) 4
ihl-first_byte old h =
    let (_, low, small) = version_half old 4 h (omega arith) in
    (ihl_half (bit_or old 4) 5 small (omega arith)).1 ∙ low

short : (old : ℕ) → old < 256 → (ihl old ≡ 0) ⊎ (ihl old ≡ 4) → ihl (first_byte old) ≡ 4
short old h (inl e) = ihl-first_byte old h ∙ ap (λ (i : ℕ). bit_or i 4) e
short old h (inr e) = ihl-first_byte old h ∙ ap (λ (i : ℕ). bit_or i 4) e

sent-HasHeader :
    (routes : List Route) (old : ℕ) (p q : Packet)
    → HasRoom ipv4_header_size p
    → Ipv4Sent routes old p q
    → ihl (first_byte old) ≡ 4
    → HasHeader (first_byte old) (p.len - p.offset + ipv4_header_size) 255 q
sent-HasHeader routes old p q h s four = record {
  first_at = ap (get_elem? (bytes q)) (add-zero q.offset) ∙ s.first;
  tot_at = s.tot_len;
  ttl_at = s.ttl;
  tot_small = omega (arith, h.front, h.order, h.short, s.pushed.moved);
  end_small = omega (arith, h.front, h.order, h.short, s.pushed.moved, four);
}

sent-Refused :
    (M : Mempool) (debug : Bool) (routes : List Route) (old ptr thread : ℕ) (p q : Packet)
    (w : World M)
    → HasRoom ipv4_header_size p
    → Ipv4Sent routes old p q
    → ihl (first_byte old) ≡ 4
    → Refused M debug ptr thread
        (stripped (first_byte old) (p.len - p.offset + ipv4_header_size) q)
        (store M ptr q w)
        (receiver M debug ptr thread (store M ptr q w))
sent-Refused M debug routes old ptr thread p q w h s four =
    (receiver_lem M debug ptr thread (first_byte old) (p.len - p.offset + ipv4_header_size) 255 q
        (store M ptr q w) (packets-store_self ptr q w)
        (omega (arith, h.front, h.order, h.short, s.pushed.moved))
        (sent-HasHeader routes old p q h s four)).1
      (inl (omega (arith, four)))

-- What the packet was before does not matter to the others' counts, nor to the pool.
GivenUp-store :
    {M : Mempool} (ptr n : ℕ) (p : Packet) {w w' : World M}
    → GivenUp ptr n (store M ptr p w) w'
    → GivenUp ptr n w w'
GivenUp-store ptr n p {w = w} g = record {
  others = λ q apart. g.others q apart ∙ count_of-store ptr p w q false (ne_==_false ptr q apart);
  one_less = g.one_less;
  last = g.last;
}

-- The packet that the sender makes does not pass the receiver, in either profile: if there is room for the
-- header, and the byte that lies in its place has a low half of 0 (an empty buffer) or of 4 (the sender's own
-- earlier header), then to run `Ipv4Sender` on the packet and `Ipv4Receiver` on what it made returns that
-- the packet was dropped, with one reference to it given up.
pub sent-dropped :
    (M : Mempool) (debug : Bool) (routes : List Route) (old ptr thread n : ℕ) (p : Packet)
    (w : World M)
    → HasRoom ipv4_header_size p
    → get_elem? (bytes p) (p.offset - ipv4_header_size) ≡ some old
    → old < 256
    → (ihl old ≡ 0) ⊎ (ihl old ≡ 4)
    → p.refcnt ≡ suc n
    → Ends
        (sender debug routes p >>= λ (q, r). receiver M debug ptr thread (store M ptr q w))
        (λ (w', r). (r ≡ error dropped) × GivenUp ptr n w w')
sent-dropped M debug routes old ptr thread n p w h lay small e count =
    Ends-bind (sender-Ipv4Sent debug routes old p h lay) (λ (q, r) (fine, s).
      let w1 : World M = store M ptr q w in
      let taken_off = stripped (first_byte old) (p.len - p.offset + ipv4_header_size) q in
      let (w2, done, given_up) =
        deallocate-GivenUp debug ptr thread (store M ptr taken_off w1) n
          (ap count_of (packets-store_self ptr taken_off w1) ∙ ap some (s.pushed.refcnt ∙ count)) in
      (
        (w2, error dropped),
        sent-Refused M debug routes old ptr thread p q w h s (short old small e)
            ∙ ap (λ m. m >>= λ w'. ok (w', error dropped)) done,
        (refl, GivenUp-store ptr n q (GivenUp-store ptr n taken_off given_up)),
      ))
