-- ===== src/Buf/Adapters.antt =====
-- What a reader of the adapters of bytes/src/buf gets.
use chiya.Prelude.{
  ℕ, ◌+◌, ◌≤◌, ◌<◌, ◌≡◌, ◌⊎◌, ◌++◌, length, take, drop, min, arith, length-append, length-take,
  dec_lt, inl, inr,
}
use chiya.Prelude.Looping.{done, panic}
use chiya.Buf.{Buf, Lawful, usize_max}
use chiya.Buf.Read.{copy_to_slice}
use chiya.Buf.Read.Copy.{copy_to_slice-Reads, copy_to_slice-panic}
use chiya.Buf.Chain.{Chain, chain_buf, chain_Lawful}
use chiya.Buf.Take.{Take, take_buf, take_Lawful, contents_of}

-- Over two valid lawful readers whose lengths have a sum that is a `usize`, a `Chain` gives the
-- bytes of the first and then those of the second: `copy_to_slice` ends with the next `n` of them
-- where there are so many, and leaves a chain of the others; where there are not, it panics.
pub copy_to_slice-chain :
    {S T : Type 0} (p : Buf S) (q : Buf T) (l : Lawful p) (m : Lawful q) (s : Chain S T) (n : ℕ)
    → l.IsValid s.a
    → m.IsValid s.b
    → length (l.contents s.a) + length (m.contents s.b) ≤ usize_max
    → ((n ≤ length (l.contents s.a) + length (m.contents s.b))
        × (t : Chain S T) × (copy_to_slice (chain_buf p q) s n
            ≡ done (take n (l.contents s.a ++ m.contents s.b), t))
        × (l.contents t.a ++ m.contents t.b ≡ drop n (l.contents s.a ++ m.contents s.b)))
      ⊎ ((length (l.contents s.a) + length (m.contents s.b) < n)
          × (copy_to_slice (chain_buf p q) s n ≡ panic))
unfolding chain_Lawful
copy_to_slice-chain p q l m s n va vb fits =
    let len = length-append (l.contents s.a) (m.contents s.b) in
    let whole : length (l.contents s.a ++ m.contents s.b) ≤ usize_max = omega arith in
    elim (dec_lt (length (l.contents s.a) + length (m.contents s.b)) n) [
      | yes short ↦ inr (
        short,
        copy_to_slice-panic (chain_buf p q) (chain_Lawful p q l m) s n (va, vb, whole)
            (omega arith),
      )
      | no enough ↦
          let (t, e, _, c) =
            copy_to_slice-Reads (chain_buf p q) (chain_Lawful p q l m) s n (va, vb, whole)
              (omega arith) in
          inl (omega arith, t, e, c)
    ]

-- Over a valid lawful reader, a `Take` gives the first `limit` bytes: `copy_to_slice` ends with
-- the next `n` of them where there are so many, and leaves a `Take` of the others; where there are
-- not, it panics.
pub copy_to_slice-take :
    {S : Type 0} (b : Buf S) (l : Lawful b) (s : Take S) (n : ℕ)
    → l.IsValid s.inner
    → ((n ≤ min s.limit (length (l.contents s.inner)))
        × (t : Take S) × (copy_to_slice (take_buf b) s n
            ≡ done (take n (take s.limit (l.contents s.inner)), t))
        × (take t.limit (l.contents t.inner) ≡ drop n (take s.limit (l.contents s.inner))))
      ⊎ ((min s.limit (length (l.contents s.inner)) < n) × (copy_to_slice (take_buf b) s n ≡ panic))
unfolding take_Lawful contents_of
copy_to_slice-take b l s n v =
    let len = length-take s.limit (l.contents s.inner) in
    elim (dec_lt (min s.limit (length (l.contents s.inner))) n) [
      | yes short ↦
          inr (short, copy_to_slice-panic (take_buf b) (take_Lawful b l) s n v (omega arith))
      | no enough ↦
          let (t, e, _, c) =
            copy_to_slice-Reads (take_buf b) (take_Lawful b l) s n v (omega arith) in
          inl (omega arith, t, e, c)
    ]
