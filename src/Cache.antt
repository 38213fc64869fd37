-- ===== src/Cache.antt =====
-- `Cache::Impl` of cache_lib.cc, over any evictor. Sizes are `uint32_t`, with their wrap-around.
mod Tests
pub mod Valid
pub mod Evicting
pub mod Count
pub mod Admit
pub mod Set
pub mod Fuel
pub mod Bound
pub mod History
pub mod Reads
pub mod Overflow
pub mod Outcomes
pub mod Total
use hw6_csci.Base.{
  ℕ, zero, suc, ◌+◌, ◌-◌, ◌%◌, ◌^◌, Bool, true, false, Option, none, some, [], ◌∷◌, ◌==◌, ltb, leb,
  if◌then◌else◌, Bytes, Fault, Outcome, ok, fault, ◌>>=◌, ◌>>◌,
}
use hw6_csci.Base.Dict.{Dict, find, contains, emplace, assign, erase}
use hw6_csci.Evictor.{Evictor}

-- Arithmetic of `uint32_t`.
abbrev pub u32 : ℕ → ℕ
u32 n = n % 2 ^ 32

abbrev pub sub32 : ℕ → ℕ → ℕ
sub32 a b = u32 (a + 2 ^ 32 - b)

-- The data members. `evictor` is `none` for `nullptr`.
pub record Cache (S : Type 0) : Type 0 where
  pub current_mem : ℕ
  pub vals : Dict Bytes
  pub sizes : Dict ℕ
  pub get_val : Bytes
  pub maxmem : ℕ
  pub evictor : Option S

-- The constructor.
abbrev pub make : {S : Type 0} → ℕ → Option S → Cache S
make maxmem evictor = record {
  current_mem = 0;
  vals = [];
  sizes = [];
  get_val = [];
  maxmem = maxmem;
  evictor = evictor;
}

-- What `std::string (val)` reads from the bytes at `val`: those before the first zero byte. An
-- array that holds none is read past its end.
unfoldable pub c_string : Bytes → Outcome Bytes
c_string [] = fault Fault.unterminated
c_string (c ∷ s) = let rest = c_string s in if c == 0 then ok [] else do r ← rest; ok (c ∷ r)

-- `assert (val != NULL)`, and the string.
unfoldable pub read_value : Option Bytes → Outcome Bytes
unfolding c_string
read_value none = fault Fault.assertion
read_value (some b) = c_string b

-- `m_cache_sizes.find (key)->second`
unfoldable pub size_of : Bytes → Dict ℕ → Outcome ℕ
size_of key sizes = elim (find key sizes) [ none ↦ fault Fault.missing_entry | some n ↦ ok n ]

-- By how much a value of the size changes the memory in use.
unfoldable pub actual_size : {S : Type 0} → Cache S → Bytes → ℕ → Outcome ℕ
unfolding size_of
actual_size c key size =
    if contains key c.vals then (do old ← size_of key c.sizes; ok (sub32 size old)) else ok size

-- The assignments through `existing_value` and `existing_size`, or the two calls of `emplace`, and
-- the new count. `existing` says that the search at the start of `set` found the key; the iterator
-- that it returned is dangling once the entry is erased.
unfoldable pub put_entry :
    {S : Type 0} (existing : Bool) → Bytes → Bytes → ℕ → ℕ → Cache S → Outcome (Cache S)
put_entry false key v size actual c = ok (record c {
  vals = emplace key v c.vals;
  sizes = emplace key size c.sizes;
  current_mem = u32 (c.current_mem + actual);
})
put_entry true key v size actual c =
    if contains key c.vals
    then if contains key c.sizes
      then ok (record c {
        vals = assign key v c.vals;
        sizes = assign key size c.sizes;
        current_mem = u32 (c.current_mem + actual);
      })
      else fault Fault.missing_entry
    else fault Fault.dangling_iterator

module _ (E : Evictor) where
  -- `if (m_evictor != nullptr) m_evictor->touch_key (key)`
  unfoldable pub touch : Bytes → Cache E.State → Outcome (Cache E.State)
  touch key c = elim c.evictor [
    | none ↦ ok c
    | some s ↦ do s' ← E.touch_key key s; ok (record c { evictor = some s' })
  ]

  -- One round of the loop of `set`.
  unfoldable pub evict_one : E.State → Cache E.State → Outcome (Cache E.State)
  evict_one s c = do
    (key, s') ← E.evict s
    ok (record c {
      vals = erase key c.vals;
      sizes = erase key c.sizes;
      current_mem = elim (find key c.sizes) [
        | none ↦ c.current_mem
        | some n ↦ sub32 c.current_mem n
      ];
      evictor = some s';
    })

  -- `while (m_current_mem + actual_size > m_maxmem)`, with a bound on the rounds.
  unfoldable pub evict_until : ℕ → ℕ → Cache E.State → Outcome (Cache E.State)
  unfolding evict_one
  evict_until zero actual c = fault Fault.out_of_fuel
  evict_until (suc fuel) actual c =
      let next : Outcome (Cache E.State) = elim c.evictor [
        | none ↦ fault Fault.null_pointer
        | some s ↦ do c' ← evict_one s c; evict_until fuel actual c'
      ] in
      if ltb c.maxmem (u32 (c.current_mem + actual)) then next else ok c

  -- The entry, and then the evictor's notice of it.
  unfoldable pub admit : Bool → Bytes → Bytes → ℕ → ℕ → Cache E.State → Outcome (Cache E.State)
  admit existing key v size actual c = do c' ← put_entry existing key v size actual c; touch key c'

  -- The branch of `set` for a value that does not fit as things are.
  unfoldable pub admit_by_eviction :
      ℕ → Bool → Bytes → Bytes → ℕ → ℕ → Cache E.State → Outcome (Cache E.State)
  admit_by_eviction fuel existing key v size actual c = elim c.evictor [
    | none ↦ ok c
    | some _ ↦ do c' ← evict_until fuel actual c; admit existing key v size actual c'
  ]

  unfoldable pub set : ℕ → Bytes → Option Bytes → ℕ → Cache E.State → Outcome (Cache E.State)
  unfolding admit put_entry touch evict_until admit_by_eviction actual_size read_value
  set fuel key val size c = if ltb c.maxmem size then ok c else do
    actual ← actual_size c key size
    v ← read_value val
    let existing = contains key c.vals
    if leb (u32 (c.current_mem + actual)) c.maxmem
        then admit existing key v size actual c
        else admit_by_eviction fuel existing key v size actual c

  -- `none` for a null pointer; `some n` for a pointer to the text in `get_val_`, with the size `n`.
  unfoldable pub get : Bytes → Cache E.State → Outcome (Option ℕ × Cache E.State)
  get key c = elim (find key c.vals) [
    | none ↦ ok (none, c)
    | some v ↦ do c' ← touch key c; n ← size_of key c'.sizes; ok (some n, record c' { get_val = v })
  ]

  -- `m_cache_sizes[key]` is 0 where the key is missing.
  unfoldable pub del : Bytes → Cache E.State → Bool × Cache E.State
  del key c =
      if contains key c.vals
      then (
        true,
        record c {
          current_mem = sub32 c.current_mem (elim (find key c.sizes) [ none ↦ 0 | some n ↦ n ]);
          vals = erase key c.vals;
          sizes = erase key c.sizes;
        },
      )
      else (false, c)

  unfoldable pub space_used : Cache E.State → ℕ
  space_used c = c.current_mem

  unfoldable pub reset : Cache E.State → Cache E.State
  reset c = record c { current_mem = 0; vals = []; sizes = [] }
