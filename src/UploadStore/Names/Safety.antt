-- ===== src/UploadStore/Names/Safety.antt =====
-- A sanitized name is one bounded, harmless path component.
use holdfast.Base.{
  leb, Bool-cases, Bytes, bytes_eq, bytes_eq_iff, length, All, length-append, text, ℕ, ◌+◌, ◌≤◌,
  ◌≡◌, refl, sym, ◌≢◌, inl, inr, Bool, true, false, ◌||◌, List, [], ◌∷◌, ◌++◌, append-nil,
  append_assoc, arith,
}
use holdfast.UploadStore.Names.{
  partial_name, is_kept, sanitize_char, sanitize_loop, sanitize_basename,
}

abbrev pub IsKept : Bytes → Type 0
IsKept = All (λ c. is_kept c ≡ true)

IsKept-append : (xs ys : Bytes) → IsKept xs → IsKept ys → IsKept (xs ++ ys)
IsKept-append [] ys h k = k
IsKept-append (x ∷ xs) ys h k = (h.0, IsKept-append xs ys h.1 k)

sanitize_char-IsKept :
    (result : Bytes) (flag : Bool) (c : ℕ) → IsKept result → IsKept (sanitize_char result flag c).0
unfolding sanitize_char is_kept
sanitize_char-IsKept result flag c h =
    ground (arith, IsKept-append result (c ∷ []) h, IsKept-append result (b'_' ∷ []) h)

length-sanitize_char :
    (result : Bytes) (flag : Bool) (c : ℕ)
    → length (sanitize_char result flag c).0 ≤ length result + 1
unfolding sanitize_char
length-sanitize_char result flag c =
    ground (arith, length-append result (c ∷ []), length-append result (b'_' ∷ []))

sanitize_loop_safe :
    (cs : List ℕ) (result : Bytes) (flag : Bool)
    → IsKept result
    → length result ≤ 200
    → IsKept (sanitize_loop result flag cs) × (length (sanitize_loop result flag cs) ≤ 200)
unfolding sanitize_loop
sanitize_loop_safe [] result flag h bound = (h, bound)
sanitize_loop_safe (c ∷ cs) result flag h bound = elim (Bool-cases (leb 200 (length result))) [
  | inl full ↦ rw full (h, bound)
  | inr more ↦
      let (result', flag') = sanitize_char result flag c in
      rw more (
        sanitize_loop_safe cs result' flag' (sanitize_char-IsKept result flag c h)
          (ground (arith, length-sanitize_char result flag c)))
]

pub record IsSafeName (name : Bytes) : Type 0 where
  pub kept : IsKept name
  pub bounded : length name ≤ 200
  pub not_empty : name ≢ []
  pub not_current : name ≢ text "."
  pub not_parent : name ≢ text ".."
  pub not_partial : name ≢ partial_name

upload-IsSafeName : IsSafeName (text "upload")
unfolding is_kept
upload-IsSafeName = record {
  kept = (refl, (refl, (refl, (refl, (refl, (refl, tt))))));
  bounded = omega arith;
  not_empty = λ e. cc;
  not_current = λ e. cc;
  not_parent = λ e. cc;
  not_partial = λ e. cc;
}

pub is_reserved : Bytes → Bool
is_reserved name =
    bytes_eq name []
    || bytes_eq name (text ".")
    || bytes_eq name (text "..")
    || bytes_eq name partial_name

unreserved-IsSafeName :
    (name : Bytes) → IsKept name → length name ≤ 200 → is_reserved name ≡ false → IsSafeName name
unfolding is_reserved
unreserved-IsSafeName name kept bounded h = record {
  kept = kept;
  bounded = bounded;
  not_empty = ground (arith, bytes_eq_iff name []);
  not_current = ground (arith, bytes_eq_iff name (text "."));
  not_parent = ground (arith, bytes_eq_iff name (text ".."));
  not_partial = ground (arith, bytes_eq_iff name partial_name);
}

-- Whatever name a client sends, the stored name is one non-empty path component of at most 200
-- bytes, all letters, digits, dots, underscores or dashes, and is neither `.`, `..` nor the name of
-- the partial file.
pub sanitize_basename-IsSafeName : (original : List ℕ) → IsSafeName (sanitize_basename original)
unfolding sanitize_basename is_reserved
sanitize_basename-IsSafeName original =
    let result = sanitize_loop [] false original in
    let (kept, bounded) = sanitize_loop_safe original [] false tt (omega arith) in
    elim (Bool-cases (is_reserved result)) [
      | inl bad ↦ rw bad upload-IsSafeName
      | inr good ↦ rw good (unreserved-IsSafeName result kept bounded good)
    ]

sanitize_loop-kept :
    (cs : List ℕ) (result : Bytes) (flag : Bool)
    → IsKept cs
    → length result + length cs ≤ 200
    → sanitize_loop result flag cs ≡ result ++ cs
unfolding sanitize_loop sanitize_char
sanitize_loop-kept [] result flag h bound = sym (append-nil result)
sanitize_loop-kept (c ∷ cs) result flag h bound = ground (
  arith,
  h.0,
  sanitize_loop-kept cs (result ++ c ∷ []) false h.1,
  length-append result (c ∷ []),
  append_assoc result (c ∷ []) cs,
)

-- A name that is already safe is stored unchanged, so sanitizing twice changes nothing.
sanitize_basename_fixed : (name : Bytes) → IsSafeName name → sanitize_basename name ≡ name
unfolding sanitize_basename
sanitize_basename_fixed name h = ground (
  arith,
  sanitize_loop-kept name [] false h.kept (omega arith),
  bytes_eq_iff name [],
  bytes_eq_iff name (text "."),
  bytes_eq_iff name (text ".."),
  bytes_eq_iff name partial_name,
)
