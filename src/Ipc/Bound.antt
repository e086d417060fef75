-- ===== src/Ipc/Bound.antt =====
-- The mask of an event has a bit set exactly where an observer is counted for it.
use zuzu.Base.{
  ℕ, ◌+◌, ◌-◌, ◌≤◌, ◌<◌, ◌≡◌, refl, inl, inr, not, ◌&&◌, ◌||◌, arith, ltb, leb, ◌==◌, if◌then◌else◌,
  Bool-cases,
}
use zuzu.Base.Bits.{test_bit, clear_bit, test_bit-set_bit, test_bit-clear_bit}
use zuzu.Ipc.Events.{Event, max_refs, bind_bit, unbind_bit}

-- The mask and the counts agree, no count is above its field, and bit 31 and those above are unused.
pub record IsBound (ev : Event) : Type 0 where
  pub agrees : (b : ℕ) → test_bit ev.bound_mask b ≡ not (ev.bound_refs b == 0)
  pub counted : (b : ℕ) → ev.bound_refs b ≤ max_refs
  pub unused : (b : ℕ) → 31 ≤ b → ev.bound_refs b ≡ 0

-- On an event whose mask and counts agree, EventBindBit of a bit below 31 counts one observer more for
-- it, up to the limit of the count, and leaves the other counts; a bit from 31 on changes no count. The
-- mask and the counts still agree.
pub bind_bit-IsBound :
    (ev : Event) (bit b : ℕ)
    → IsBound ev
    → (IsBound (bind_bit ev bit)
        × ((bind_bit ev bit).bound_refs b ≡ (
            if bit == b && (ltb bit 31 && ltb (ev.bound_refs b) max_refs)
            then ev.bound_refs b + 1
            else ev.bound_refs b)))
unfolding bind_bit
bind_bit-IsBound ev bit b v = elim (Bool-cases (leb 31 bit)) [
  | inl high ↦ rw high (v, ground arith)
  | inr low ↦ rw low (
    record {
      agrees = λ c. ground (arith, test_bit-set_bit ev.bound_mask bit c, v.agrees c, v.counted c);
      counted = λ c. ground (arith, v.counted c);
      unused = λ c h. ground (arith, v.unused c h);
    },
    ground arith,
  )
]

unbound :
    (ev : Event) (bit : ℕ)
    → IsBound ev
    → bit < 31
    → 0 < ev.bound_refs bit
    → IsBound (record {
      bound_mask =
          if ev.bound_refs bit - 1 == 0 then clear_bit ev.bound_mask bit else ev.bound_mask;
      bound_refs = λ b. if bit == b then ev.bound_refs b - 1 else ev.bound_refs b;
    })
unbound ev bit v low some_ref = record {
  agrees = λ c.
      let old = v.agrees c in
      let cleared = test_bit-clear_bit ev.bound_mask bit c in
      elim (Bool-cases (bit == c)) [
        | inl same ↦
            let e : c ≡ bit = ground arith in
            elim (Bool-cases (ev.bound_refs bit - 1 == 0)) [
              | inl last ↦ rw (last, cleared, same) (ground (arith, e))
              | inr more ↦ rw (more, same) (ground (arith, e, old))
            ]
        | inr other ↦ elim (Bool-cases (ev.bound_refs bit - 1 == 0)) [
          | inl last ↦ rw (last, cleared, other) old
          | inr more ↦ rw (more, other) old
        ]
      ];
  counted = λ c. ground (arith, v.counted c);
  unused = λ c h. ground (arith, v.unused c h);
}

-- On an event whose mask and counts agree, EventUnbindBit takes one observer from the count of the
-- bit, if it has one, and leaves the other counts. The mask and the counts still agree.
pub unbind_bit-IsBound :
    (ev : Event) (bit b : ℕ)
    → IsBound ev
    → (IsBound (unbind_bit ev bit)
        × ((unbind_bit ev bit).bound_refs b
            ≡ (if bit == b then ev.bound_refs b - 1 else ev.bound_refs b)))
unfolding unbind_bit
unbind_bit-IsBound ev bit b v = elim (Bool-cases (leb 31 bit || ev.bound_refs bit == 0)) [
  | inl nothing ↦
      let none_left : ev.bound_refs bit ≡ 0 = elim (Bool-cases (leb 31 bit)) [
        | inl high ↦ v.unused bit (ground arith)
        | inr low ↦ ground arith
      ] in
      rw nothing (
        v,
        elim (Bool-cases (bit == b)) [
          | inl same ↦ let e : b ≡ bit = ground arith in rw (same, e, none_left) (omega arith)
          | inr other ↦ rw other
        ],
      )
  | inr some_ref ↦ rw some_ref (unbound ev bit v (ground arith) (ground arith), refl)
]
