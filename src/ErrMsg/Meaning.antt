-- ===== src/ErrMsg/Meaning.antt =====
-- The text that the tokens of a message mean (the format that ifx_errmsg_get of src/ifx_errmsg.c
-- reads).
use mathlib.Core.Path.{subst}
use mathlib.Core.List.{append-nil}
use libsqli.Prelude.Bytes.{All}
use libsqli.Prelude.{
  ℕ, ◌+◌, ◌-◌, ◌<◌, ◌≡◌, ◌≢◌, refl, true, false, List, [], ◌∷◌, ◌++◌, ◌==◌, leb, get_or, drop,
  arith, ◌⊎◌, inl, inr, Bool-cases, if◌then◌else◌,
}
use libsqli.ErrMsg.{Tables, dict_entry, literal, c_bytes}

-- The text stands in front of the bytes, up to the first byte 0 or to their end.
pub record IsFront (text bytes : List ℕ) : Type 0 where
  rest : List ℕ
  front : bytes ≡ text ++ rest
  clean : All (λ c. c ≢ 0) text
  stop : (rest ≡ []) ⊎ ((more : List ℕ) × (rest ≡ 0 ∷ more))

-- The word of the dictionary with a number.
abbrev pub IsWord : Tables → ℕ → List ℕ → Type 0
IsWord t i text = IsFront text (drop (get_or t.dict_offsets i 0) t.dict_blob)

-- The tokens mean the text: up to the byte 0, the bytes 1 to 127 mean themselves, the byte 129 + i
-- means the word i of the dictionary, and 128 with the byte n behind it the word 127 + n.
pub data Means (t : Tables) : List ℕ → List ℕ → Type 0 where
  over : Means t [] []
  ended : (rest : List ℕ) → Means t (0 ∷ rest) []
  byte :
      (c : ℕ) (tokens text : List ℕ)
      → c ≢ 0
      → c < 128
      → Means t tokens text
      → Means t (c ∷ tokens) (c ∷ text)
  word :
      (i : ℕ) (tokens w text : List ℕ)
      → IsWord t i w
      → Means t tokens text
      → Means t ((129 + i) ∷ tokens) (w ++ text)
  pair :
      (n : ℕ) (tokens w text : List ℕ)
      → IsWord t (127 + n) w
      → Means t tokens text
      → Means t (128 ∷ n ∷ tokens) (w ++ text)
  pair_over : (w : List ℕ) → IsWord t 127 w → Means t (128 ∷ []) w

c_bytes-IsFront : (bytes : List ℕ) → IsFront (c_bytes bytes) bytes
c_bytes-IsFront [] = record { rest = []; front = refl; clean = tt; stop = inl refl }
c_bytes-IsFront (c ∷ cs) = elim (Bool-cases (c == 0)) [
  | inl e ↦
      let nul : c ≡ 0 = ground (arith, e) in
      rw e (record { rest = c ∷ cs; front = refl; clean = tt; stop = inr (cs, λ i. nul i ∷ cs) })
  | inr e ↦
      let h = c_bytes-IsFront cs in
      rw e (record {
        rest = h.rest;
        front = λ i. c ∷ h.front i;
        clean = (λ nul. ground (arith, e, nul), h.clean);
        stop = h.stop;
      })
]

dict_entry-IsWord : (t : Tables) (i : ℕ) → IsWord t i (dict_entry t i)
unfolding dict_entry
dict_entry-IsWord t i = c_bytes-IsFront (drop (get_or t.dict_offsets i 0) t.dict_blob)

-- A token that neither ends the message nor starts a pair.
literal-Means :
    (t : Tables) (token : ℕ) (tokens text : List ℕ)
    → (token == 0) ≡ false
    → (token == 128) ≡ false
    → Means t tokens text
    → Means t (token ∷ tokens) (literal t token ++ text)
unfolding literal
literal-Means t token tokens text h k m = elim (Bool-cases (leb 129 token)) [
  | inl e ↦
      let back : 129 + (token - 129) ≡ token = ground (arith, e) in
      rw e (
        subst (λ c. Means t (c ∷ tokens) (dict_entry t (token - 129) ++ text)) back
          (word (token - 129) tokens _ text (dict_entry-IsWord t (token - 129)) m))
  | inr e ↦
      rw e (byte token tokens text (λ nul. ground (arith, h, nul)) (ground (arith, e, h, k)) m)
]

-- The whole text of a message, whatever the room.
unfoldable pub message : Tables → List ℕ → List ℕ
message t [] = []
message t (token ∷ []) =
    let text = if token == 128 then dict_entry t 127 else literal t token in
    if token == 0 then [] else text ++ []
message t (token ∷ next ∷ tokens) =
    let behind_pair = message t tokens in
    let behind_one = message t (next ∷ tokens) in
    if token == 0
    then []
    else if token == 128
    then dict_entry t (127 + next) ++ behind_pair
    else literal t token ++ behind_one

ended-Means :
    (t : Tables) (token : ℕ) (tokens : List ℕ) → (token == 0) ≡ true → Means t (token ∷ tokens) []
ended-Means t token tokens e =
    let nul : 0 ≡ token = ground (arith, e) in
    subst (λ c. Means t (c ∷ tokens) []) nul (ended tokens)

lone-Means :
    (t : Tables) (token : ℕ)
    → (token == 0) ≡ false
    → Means t (token ∷ []) ((if token == 128 then dict_entry t 127 else literal t token) ++ [])
lone-Means t token h = elim (Bool-cases (token == 128)) [
  | inl e ↦
      let lead : 128 ≡ token = ground (arith, e) in
      rw (e, append-nil (dict_entry t 127))
        (subst (λ c. Means t (c ∷ []) (dict_entry t 127)) lead
          (pair_over (dict_entry t 127) (dict_entry-IsWord t 127)))
  | inr e ↦ rw e (literal-Means t token [] [] h e over)
]

pair-Means :
    (t : Tables) (token next : ℕ) (tokens text : List ℕ)
    → (token == 128) ≡ true
    → Means t tokens text
    → Means t (token ∷ next ∷ tokens) (dict_entry t (127 + next) ++ text)
pair-Means t token next tokens text e m =
    let lead : 128 ≡ token = ground (arith, e) in
    subst (λ c. Means t (c ∷ next ∷ tokens) (dict_entry t (127 + next) ++ text)) lead
      (pair next tokens (dict_entry t (127 + next)) text (dict_entry-IsWord t (127 + next)) m)

pub message-Means : (t : Tables) (tokens : List ℕ) → Means t tokens (message t tokens)
unfolding message
message-Means t [] = over
message-Means t (token ∷ []) = elim (Bool-cases (token == 0)) [
  | inl e ↦ rw e (ended-Means t token [] e)
  | inr e ↦ rw e (lone-Means t token e)
]
message-Means t (token ∷ next ∷ tokens) = elim (Bool-cases (token == 0)) [
  | inl e ↦ rw e (ended-Means t token (next ∷ tokens) e)
  | inr e ↦ elim (Bool-cases (token == 128)) [
    | inl p ↦ rw (e, p) (pair-Means t token next tokens _ p (message-Means t tokens))
    | inr p ↦
        rw (e, p) (literal-Means t token (next ∷ tokens) _ e p (message-Means t (next ∷ tokens)))
  ]
]
