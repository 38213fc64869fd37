-- ===== src/Cache/Overflow.antt =====
-- `set` where the count of memory wraps around, beyond the bound on `maxmem` of the invariant.
use hw6_csci.Base.{
  ℕ, ◌+◌, ◌^◌, ◌≤◌, ◌<◌, ◌≡◌, refl, ◌∙◌, ap, false, Option, none, List, Bytes, arith, ok,
}
use hw6_csci.Base.Dict.{contains, find, total, emplace, total-emplace}
use hw6_csci.Evictor.{Evictor}
use hw6_csci.Cache.{Cache, u32, read_value, actual_size, put_entry, admit, set, space_used}
use hw6_csci.Cache.Valid.{Queued}
use hw6_csci.Cache.Admit.{touch_lem}
use hw6_csci.Cache.Set.{set_fits}

module _ (E : Evictor) (fuel : ℕ) (key : Bytes) (val : Option Bytes) (size : ℕ)
    (c : Cache E.State) where
  new_size : find key c.vals ≡ none → actual_size c key size ≡ ok size
  unfolding actual_size
  new_size e = ground arith

  new_entry :
      (v : Bytes)
      → put_entry false key v size size c
        ≡ ok (record c {
          vals = emplace key v c.vals;
          sizes = emplace key size c.sizes;
          current_mem = u32 (c.current_mem + size);
        })
  unfolding put_entry
  new_entry v = refl

  -- Where the evictor, if any, stands for a queue, and the memory in use is the sum of the sizes
  -- and within a `maxmem` below 2^32, a `set` of a new key and a zero-terminated text with at
  -- most `maxmem` bytes that takes the sum to 2^32 or more stores the value all the same: the
  -- sizes then sum to more than `maxmem`, and `space_used` is 2^32 less than their sum.
  pub set_wraps :
      (q : List Bytes) (v : Bytes)
      → Queued E c.evictor q
      → read_value val ≡ ok v
      → find key c.vals ≡ none
      → find key c.sizes ≡ none
      → c.current_mem ≡ total c.sizes
      → c.current_mem ≤ c.maxmem
      → c.maxmem < 2 ^ 32
      → size ≤ c.maxmem
      → 2 ^ 32 ≤ c.current_mem + size
      → (c' : Cache E.State) × (set E fuel key val size c ≡ ok c')
        × (c.maxmem < total c'.sizes)
        × (space_used E c' + 2 ^ 32 ≡ total c'.sizes)
  unfolding admit space_used
  set_wraps q v queued text new new' counted bounded narrow small over =
      let d = record c {
        vals = emplace key v c.vals;
        sizes = emplace key size c.sizes;
        current_mem = u32 (c.current_mem + size);
      } in
      let (c', run, t) = touch_lem E key d q queued in
      let is_new : contains key c.vals ≡ false = ground arith in
      let sum : total c'.sizes ≡ total c.sizes + size =
        ap total t.sizes ∙ total-emplace key size c.sizes new' in
      (
        c',
        set_fits E fuel key val size c size small (new_size new) text (omega arith)
            (rw is_new (rw new_entry run)),
        omega arith,
        omega arith,
      )
