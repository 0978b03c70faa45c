-- ===== src/BytesMut/Fill.antt =====
-- What is written behind the bytes of a `BytesMut` and within its capacity (bytes/src/bytes_mut.rs).
use chiya.Prelude.{
  ℕ, ◌+◌, ◌-◌, ◌≤◌, ◌≡◌, ◌≢◌, true, List, ◌++◌, length, ◌==◌, some, inl, inr, sym, ap, ◌∙◌, arith,
  Bool-cases,
}
use mathlib.Core.Path.{subst}
use mathlib.Core.Option.{some-injective}
use chiya.Memory.{add, Memory, ok, update, IsFresh, ◌>>◌, Eff, write}
use chiya.Memory.Access.{splice, write-ok, live-lt, update_self, update-ne, IsFresh-set_block}
use chiya.Memory.Windows.{
  length-splice, window-splice_extend, window-splice_before, window-splice_after,
}
use chiya.Memory.Returns.{Returns, returns}
use chiya.BytesMut.{BytesMut}
use chiya.BytesMut.Valid.{Valid, window, Becomes, Keeps}
use chiya.BytesMut.Room.{Roomy}

-- A write behind the bytes of a handle and within its capacity, and what it shows then.
module _ (m : Memory) (h : BytesMut) (bs src : List ℕ) (n : ℕ) (fresh : IsFresh m)
    (v : Valid m h bs n) (room : length src ≤ h.cap - h.len) where
  abbrev pub at : ℕ
  at = h.ptr.offset + h.len

  abbrev pub written : Memory
  written = record m { block = update m.block h.ptr.block (some (splice at src bs)) }

  pub written-Valid : Valid written (record h { len = h.len + length src }) (splice at src bs) n
  written-Valid =
      let inside = v.inside in
      let len_le = v.len_le in
      let small = v.small in
      let size = length-splice at src bs (omega arith) in
      record {
        live = update_self m.block h.ptr.block _;
        inside = omega arith;
        len_le = omega arith;
        small = omega arith;
        form = elim v.form [
          | inl (odd, fits, offset, all, one) ↦ inl (odd, fits, offset, omega arith, one)
          | inr (even, vec, repr, box, buf, whole, low, pos) ↦
              inr (even, vec, repr, box, buf, omega arith, low, pos)
        ];
      }

  written-Keeps : Keeps m h n written (record h { len = h.len + length src }) n
  written-Keeps g xs (ys, live, inside', shows) beside =
      let inside = v.inside in
      let len_le = v.len_le in
      let size = length-splice at src bs (omega arith) in
      elim (Bool-cases (g.ptr.block == h.ptr.block)) [
        | inl same ↦
            let e : g.ptr.block ≡ h.ptr.block = ground arith in
            let f : bs ≡ ys = some-injective bs ys (sym v.live ∙ ap m.block (sym e) ∙ live) in
            elim beside [
              | inl ne ↦ absurd (ne e)
              | inr (two, place) ↦
                  let untouched : window g (splice at src bs) ≡ window g bs = elim place [
                    | inl before ↦
                        window-splice_before g.ptr.offset g.len at src bs (omega arith)
                          (omega arith)
                    | inr after ↦
                        window-splice_after g.ptr.offset g.len at src bs (omega arith) (omega arith)
                  ] in
                  let n_bs = ap length f in
                  (
                    (
                      splice at src bs,
                      ap (update m.block h.ptr.block (some (splice at src bs))) e
                          ∙ update_self m.block h.ptr.block _,
                      omega arith,
                      untouched ∙ ap (window g) f ∙ shows,
                    ),
                    inr (two, place),
                  )
            ]
        | inr other ↦
            let ne : g.ptr.block ≢ h.ptr.block = λ e. ground arith in
            ((ys, update-ne m.block h.ptr.block g.ptr.block _ ne ∙ live, inside', shows), beside)
      ]

  pub written-Becomes :
      Becomes m h n (window h bs ++ src) (record h { len = h.len + length src }) written
  written-Becomes =
      let inside = v.inside in
      let len_le = v.len_le in
      (
        record {
          fresh = IsFresh-set_block m fresh h.ptr.block _ (live-lt m fresh h.ptr.block bs v.live);
          bytes = splice at src bs;
          count = n;
          valid = written-Valid;
          keeps = written-Keeps;
        },
        window-splice_extend h.ptr.offset h.len src bs (omega arith),
      )

-- A step, and another from where it ends.
pub Becomes-then :
    (m m' m'' : Memory) (h h' h'' : BytesMut) (n : ℕ) (xs ys : List ℕ)
    → (first : Becomes m h n xs h' m') → Becomes m' h' first.0.count ys h'' m''
    → Becomes m h n ys h'' m''
Becomes-then m m' m'' h h' h'' n xs ys first second = (
  record {
    fresh = second.0.fresh;
    bytes = second.0.bytes;
    count = second.0.count;
    valid = second.0.valid;
    keeps = λ g zs s b. let (s', b') = first.0.keeps g zs s b in second.0.keeps g zs s' b';
  },
  second.1,
)

-- What `src` written into the room that was made leaves.
pub filled-Becomes :
    (m m' : Memory) (h h' : BytesMut) (bs src : List ℕ) (n : ℕ) (next : Eff BytesMut)
    → Roomy m h bs n (length src) (h', true) m'
    → ((m'' : Memory) → next m'' ≡ ok (record h' { len = h'.len + length src }) m'')
    → Returns
        (λ h'' m''. Becomes m h n (window h bs ++ src) h'' m'')
        ((write (add h'.ptr h'.len) src >> next) m')
filled-Becomes m m' h h' bs src n next roomy e =
    let step = roomy.becomes.0 in
    let inside = step.valid.inside in
    let len_le = step.valid.len_le in
    let room = roomy.room in
    rw (write-ok m' (add h'.ptr h'.len) src step.bytes step.valid.live (omega arith), e _)
      (returns (
        Becomes-then m m' _ h h' _ n (window h bs) (window h bs ++ src) roomy.becomes (
          subst
            (λ k.
              Becomes m' h' step.count (k ++ src) (record h' { len = h'.len + length src })
                (record m' {
                  block =
                      update m'.block h'.ptr.block
                        (some (splice (h'.ptr.offset + h'.len) src step.bytes));
                }))
            roomy.becomes.1
            (written-Becomes m' h' step.bytes src step.count step.fresh step.valid room))))
