-- ===== src/Pmm/Defs.antt =====
-- The frame allocator of kernel/mm/pmm/pmm.c and pmm_pressure.c: its state, the free list in the frames
-- and the functions for single frames. Sizes and addresses are words of 32 bits. `none` is a failed
-- assertion or a panic, at which the kernel stops.
use zuzu.Base.{
  ℕ, zero, suc, ◌+◌, ◌-◌, ◌*◌, ◌/◌, ◌%◌, ◌^◌, Bool, true, false, not, ◌&&◌, Option, none, some,
  ◌>>=◌, List, [], ◌∷◌, ◌++◌, ltb, leb, ◌==◌, if◌then◌else◌,
}
use zuzu.Bitmap

-- Calls that leave the allocator, in their order. An event is a number.
pub data Call : Type 0 where
  syspage_update_mem : Call
  event_signal : ℕ → Call
  event_unref : ℕ → Call

-- PmmSubscriber: is the event alive, and which is it?
pub record Subscriber : Type 0 where
  pub alive : Bool
  pub ev : ℕ

-- PmmState, with the FreeNode of each frame as functions of its physical address.
pub record Pmm : Type 0 where
  pub pfn_base : ℕ
  pub pfn_end : ℕ
  pub total_frames : ℕ
  pub free_frames : ℕ
  pub bitmap : List ℕ
  pub bitmap_bytes : ℕ
  pub freelist_head : ℕ
  pub freelist_ready : Bool
  pub in_pressure : Bool
  pub node_next : ℕ → ℕ
  pub node_prev : ℕ → ℕ
  pub subscribers : List Subscriber
  pub calls : List Call

abbrev pub page_size : ℕ
page_size = 4096

abbrev pub pfn_to_pa : ℕ → ℕ
pfn_to_pa pfn = pfn * page_size % 2 ^ 32

abbrev pub pa_to_pfn : ℕ → ℕ
pa_to_pfn pa = pa / page_size

unfoldable pub is_taken : Pmm → ℕ → Bool
is_taken s index = Bitmap.test 8 s.bitmap index

abbrev pub write : (ℕ → ℕ) → ℕ → ℕ → ℕ → ℕ
write f a v x = if a == x then v else f x

-- A write through a null pointer is left out by the code's test.
abbrev pub write_if : (ℕ → ℕ) → ℕ → ℕ → ℕ → ℕ
write_if f a v = if a == 0 then f else write f a v

unfoldable pub push_node : Pmm → ℕ → Pmm
push_node s pa = record s {
  node_next = write s.node_next pa s.freelist_head;
  node_prev = write_if (write s.node_prev pa 0) s.freelist_head pa;
  freelist_head = pa;
}

-- With a head that is not 0.
unfoldable pub pop_node : Pmm → Pmm
pop_node s =
    let next = s.node_next s.freelist_head in
    record s { freelist_head = next; node_prev = write_if s.node_prev next 0 }

unfoldable pub unlink_node : Pmm → ℕ → Pmm
unlink_node s pa =
    let prev = s.node_prev pa in
    let next = s.node_next pa in
    record s {
      node_next = write_if s.node_next prev next;
      freelist_head = if prev == 0 then next else s.freelist_head;
      node_prev = write_if s.node_prev next prev;
    }

unfoldable pub is_recorded : Pmm → ℕ → Bool
is_recorded s pa =
    if pa == 0
    then true
    else if not (pa % page_size == 0)
    then false
    else leb s.pfn_base (pa_to_pfn pa) && ltb (pa_to_pfn pa) s.pfn_end

-- `n` frames left, from `i` on.
unfoldable pub rebuild_loop : ℕ → ℕ → Pmm → Pmm
rebuild_loop zero i s = s
rebuild_loop (suc n) i s =
    rebuild_loop n (i + 1) (if is_taken s i then s else push_node s (pfn_to_pa (s.pfn_base + i)))

unfoldable pub rebuild_freelist : Pmm → Pmm
rebuild_freelist s = record (rebuild_loop s.total_frames 0 (record s { freelist_head = 0 })) {
  freelist_ready = true;
}

-- The subscribers that stay, and the calls for each in order.
unfoldable pub signal_loop : List Subscriber → List Subscriber × List Call
signal_loop [] = ([], [])
signal_loop (sub ∷ subs) =
    let r = signal_loop subs in
    if sub.alive then (sub ∷ r.0, event_signal sub.ev ∷ r.1) else (r.0, event_unref sub.ev ∷ r.1)

abbrev pub free_pct : Pmm → ℕ
free_pct s = s.free_frames * 100 % 2 ^ 32 / s.total_frames

unfoldable pub signal_subscribers : Pmm → Pmm
signal_subscribers s =
    let r = signal_loop s.subscribers in
    if not s.in_pressure && ltb (free_pct s) 20
    then record s { in_pressure = true; subscribers = r.0; calls = s.calls ++ r.1 }
    else if s.in_pressure && ltb 30 (free_pct s)
    then record s { in_pressure = false }
    else s

abbrev pub assert {ℓ} : {A : Type ℓ} → Bool → Option A → Option A
assert c k = if c then k else none

-- `index - 1` as a word.
abbrev pub minus_one : ℕ → ℕ
minus_one n = (n + (2 ^ 32 - 1)) % 2 ^ 32

abbrev pub taken_at : Pmm → ℕ → Pmm
taken_at s index = record s {
  bitmap = Bitmap.put 8 s.bitmap index;
  free_frames = minus_one s.free_frames;
}

-- From the pop on.
unfoldable pub take_head : Pmm → Option (ℕ × Pmm)
take_head s =
    let pa = s.freelist_head in
    let index = pa_to_pfn pa - s.pfn_base in
    let popped = pop_node s in
    let t = taken_at popped index in
    assert (ltb (index / 8) s.bitmap_bytes) (
      assert (not (is_taken popped index))
        (assert (leb t.free_frames t.total_frames) (some (pa, signal_subscribers t))))

abbrev pub take_checked : Pmm → Option (ℕ × Pmm)
take_checked s =
    if s.freelist_head == 0
    then some (0, s)
    else if is_recorded s (s.node_next s.freelist_head)
    then take_head s
    else some (0, record s { freelist_head = 0 })

abbrev pub take_recorded : Pmm → Option (ℕ × Pmm)
take_recorded s =
    if s.freelist_head == 0
    then some (0, s)
    else take_checked
        (if is_recorded s (s.node_next s.freelist_head) then s else rebuild_freelist s)

unfoldable pub take_free_frame : Pmm → Option (ℕ × Pmm)
take_free_frame s =
    if s.freelist_head == 0
    then some (0, s)
    else take_recorded (if is_recorded s s.freelist_head then s else rebuild_freelist s)

unfoldable pub syspage_update : Pmm → Pmm
syspage_update s = record s { calls = s.calls ++ (syspage_update_mem ∷ []) }

abbrev pub update_if_any : ℕ × Pmm → Option (ℕ × Pmm)
update_if_any (pa, s) = some (pa, if pa == 0 then s else syspage_update s)

unfoldable pub alloc_frame : Pmm → Option (ℕ × Pmm)
alloc_frame s = do r ← take_free_frame s; update_if_any r

abbrev pub freed_at : Pmm → ℕ → Pmm
freed_at s index = record s {
  bitmap = Bitmap.clr 8 s.bitmap index;
  free_frames = (s.free_frames + 1) % 2 ^ 32;
}

-- A frame that is free already is a double free.
unfoldable pub free_frame : Pmm → ℕ → Option Pmm
free_frame s addr =
    let pfn = pa_to_pfn addr in
    let index = pfn - s.pfn_base in
    let t = freed_at s index in
    assert (addr % page_size == 0) (
      assert (leb s.pfn_base pfn && ltb pfn s.pfn_end) (
        assert (ltb (index / 8) s.bitmap_bytes) (
          assert (leb s.free_frames s.total_frames) (
            if is_taken s index
            then assert (leb t.free_frames t.total_frames)
                (some (syspage_update (push_node t addr)))
            else none))))
