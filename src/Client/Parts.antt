-- ===== src/Client/Parts.antt =====
-- What `boost::split` makes of the texts that go over the wire.
use hw6_csci.Base.{
  ℕ, ◌≡◌, refl, ◌∙◌, ap, sym, true, false, [], ◌∷◌, ◌++◌, arith, Bytes, codes, ok, append_assoc,
  length, length-append,
}
use hw6_csci.Text.{to_string, unquote, is_digit, take}
use hw6_csci.Text.Decimal.{to_string-Lacks}
use hw6_csci.Text.Split.{Splitter, is_any_of, Lacks, Lacks-append}
use hw6_csci.Server.{get_body}

-- A text in quotes behind a space.
abbrev pub quoted : Bytes → Bytes
quoted x = 32 ∷ 34 ∷ (x ++ 34 ∷ [])

take-append : (x : Bytes) (c : ℕ) → take (length x) (x ++ c ∷ []) ≡ x
take-append [] c = refl
take-append (d ∷ x) c = ap (◌∷◌ d) (take-append x c)

pub unquote-quoted : (x : Bytes) → unquote (quoted x) ≡ ok x
unfolding unquote
unquote-quoted x = ground (arith, length-append x (34 ∷ []), take-append x 34)

-- The bytes between which the client cuts a reply, and the server a request.
abbrev pub reply_marks : Bytes
reply_marks = codes ",:"

abbrev pub slash : Bytes
slash = codes "/"

digit_no_mark : (c : ℕ) → is_digit c ≡ true → is_any_of reply_marks c ≡ false
digit_no_mark c d = ground arith

digit_no_slash : (c : ℕ) → is_digit c ≡ true → is_any_of slash c ≡ false
digit_no_slash c d = ground arith

module _ (B : Splitter) where
  -- A quoted text, and the separator behind it.
  split_quoted :
      (x : Bytes) (c : ℕ) (rest : Bytes)
      → Lacks reply_marks x
      → is_any_of reply_marks c ≡ true
      → B.split reply_marks (32 ∷ 34 ∷ (x ++ 34 ∷ c ∷ rest)) ≡ quoted x ∷ B.split reply_marks rest
  split_quoted x c rest lacks mark =
      ap (λ t. B.split reply_marks (32 ∷ 34 ∷ t)) (sym (append_assoc x (34 ∷ []) (c ∷ rest)))
      ∙ B.split_first reply_marks (quoted x) c rest
          (refl, (refl, Lacks-append reply_marks x (34 ∷ []) lacks (refl, tt))) mark

  -- For a key and a value with neither comma nor colon, the reply to a `GET` is cut at these
  -- into the six parts of which the client reads the value and the size.
  pub split-get_body :
      (key value : Bytes) (size : ℕ)
      → Lacks reply_marks key
      → Lacks reply_marks value
      → B.split reply_marks (get_body key value size)
        ≡ codes "\"key\""
          ∷ quoted key
          ∷ codes " \"value\""
          ∷ quoted value
          ∷ codes " \"size\""
          ∷ quoted (to_string size)
          ∷ []
  unfolding get_body
  split-get_body key value size lk lv =
      let n = to_string size in
      let t5 = 32 ∷ 34 ∷ (n ++ 34 ∷ []) in
      let t3 = 32 ∷ 34 ∷ (value ++ 34 ∷ b',' ∷ (codes " \"size\"" ++ b':' ∷ t5)) in
      let t1 = 32 ∷ 34 ∷ (key ++ 34 ∷ b',' ∷ (codes " \"value\"" ++ b':' ∷ t3)) in
      let e0 = B.split_first reply_marks (codes "\"key\"") b':' t1 (ground arith) refl in
      let e1 = split_quoted key b',' (codes " \"value\"" ++ b':' ∷ t3) lk refl in
      let e2 = B.split_first reply_marks (codes " \"value\"") b':' t3 (ground arith) refl in
      let e3 = split_quoted value b',' (codes " \"size\"" ++ b':' ∷ t5) lv refl in
      let e4 = B.split_first reply_marks (codes " \"size\"") b':' t5 (ground arith) refl in
      let e5 = B.split_whole reply_marks t5 (
        refl,
        (
          refl,
          Lacks-append reply_marks n (34 ∷ []) (to_string-Lacks reply_marks digit_no_mark size)
              (refl, tt),
        ),
      ) in
      e0
      ∙ ap (λ l. codes "\"key\"" ∷ l)
          (e1
            ∙ ap (λ l. quoted key ∷ l)
                (e2
                  ∙ ap (λ l. codes " \"value\"" ∷ l)
                      (e3 ∙ ap (λ l. quoted value ∷ l) (e4 ∙ ap (λ l. codes " \"size\"" ∷ l) e5))))

  -- A miss.
  pub split-null : B.split reply_marks (codes "NULL") ≡ codes "NULL" ∷ []
  split-null = B.split_whole reply_marks (codes "NULL") (ground arith)

  pub split-path : (s : Bytes) → Lacks slash s → B.split slash (codes "/" ++ s) ≡ [] ∷ s ∷ []
  split-path s lacks =
      B.split_first slash [] b'/' s tt refl ∙ ap (◌∷◌ []) (B.split_whole slash s lacks)

  -- The four parts of a `PUT`.
  pub split-put :
      (key value : Bytes) (size : ℕ)
      → Lacks slash key
      → Lacks slash value
      → B.split slash
          (codes "/" ++ (key ++ (codes "/" ++ (value ++ (codes "/" ++ to_string size)))))
        ≡ [] ∷ key ∷ value ∷ to_string size ∷ []
  split-put key value size lk lv =
      B.split_first slash [] b'/' _ tt refl
      ∙ ap (◌∷◌ []) (
          B.split_first slash key b'/' _ lk refl
          ∙ ap (◌∷◌ key) (
              B.split_first slash value b'/' _ lv refl
              ∙ ap (◌∷◌ value) (
                  B.split_whole slash (to_string size)
                    (to_string-Lacks slash digit_no_slash size))))
