-- ===== src/Tool/Printing/Reading.antt =====
-- What the flag package reads of printed options.
use go_odp.Prelude.{
  ℕ, zero, suc, ◌<◌, ◌^◌, ◌%◌, ◌-◌, ◌==◌, ◌≡◌, ◌≢◌, refl, ap, ◌∙◌, List, [], ◌∷◌, Bool, true, false,
  Option, none, some, Result, ok, ◌⊎◌, inl, inr, bytes_equal, if◌then◌else◌, length, replicate,
  ==_self, ==_false,
}
use go_odp.Tunnel.{all_bytes}
use go_odp.Flow.Key.{TunnelFlowKey}
use go_odp.Tool.Options.{ℤ, pos, negsuc, with_text, with_int}
use go_odp.Tool.Printing.{
  OptionValue, Printed, print_bytes_option, print_int_option, print_bool_option, bool_text,
  argument_of, arguments, string_var, int_var, int_or, when_int,
}

abbrev pub argument_or : List ℕ → Option OptionValue → List ℕ
argument_or value none = value
argument_or value (some v) = argument_of v

-- The flags, from the options with those that print nothing.
abbrev pub string_over : List ℕ → List ℕ → Printed → List ℕ
string_over name value [] = value
string_over name value ((other, v) ∷ options) =
    string_over name (if bytes_equal other name then argument_or value v else value) options

pub string_var-arguments :
    (name value : List ℕ) (options : Printed)
    → string_var name value (arguments options) ≡ string_over name value options
unfolding string_var arguments
string_var-arguments name value [] = refl
string_var-arguments name value ((other, none) ∷ options) =
    string_var-arguments name value options
    ∙ ap (λ v. string_over name v options) (kept (bytes_equal other name))
  where
    kept : (b : Bool) → value ≡ (if b then value else value)
    kept true = refl
    kept false = refl
string_var-arguments name value ((other, some v) ∷ options) =
    string_var-arguments name (if bytes_equal other name then argument_of v else value) options

module _ (int_of : List ℕ → Option ℤ) where
  abbrev pub read_or : ℤ → Option OptionValue → Option ℤ
  read_or value none = some value
  read_or value (some v) = int_of (argument_of v)

  abbrev pub chosen_or : ℤ → Bool → Option OptionValue → Option ℤ
  chosen_or value true v = read_or value v
  chosen_or value false v = some value

  abbrev pub int_over : List ℕ → ℤ → Printed → Option ℤ
  int_over name value [] = some value
  int_over name value ((other, v) ∷ options) =
      when_int int_of (chosen_or value (bytes_equal other name) v)
        λ next. int_over name next options

  when_int-equal :
      (read : Option ℤ) (f g : ℤ → Option ℤ)
      → ((next : ℤ) → f next ≡ g next)
      → when_int int_of read f ≡ when_int int_of read g
  when_int-equal none f g h = refl
  when_int-equal (some next) f g h = h next

  pub int_var-arguments :
      (name : List ℕ) (value : ℤ) (options : Printed)
      → int_var int_of name value (arguments options) ≡ int_over name value options
  unfolding int_var arguments
  int_var-arguments name value [] = refl
  int_var-arguments name value ((other, none) ∷ options) =
      int_var-arguments name value options ∙ kept (bytes_equal other name)
    where
      kept :
          (b : Bool)
          → int_over name value options
            ≡ when_int int_of (chosen_or value b none) (λ next. int_over name next options)
      kept true = refl
      kept false = refl
  int_var-arguments name value ((other, some v) ∷ options) =
      both (bytes_equal other name)
        (λ read. when_int-equal read _ _ (λ next. int_var-arguments name next options))
    where
      Behind : Option ℤ → Type 0
      Behind read =
          when_int int_of read (λ next. int_var int_of name next (arguments options))
          ≡ when_int int_of read (λ next. int_over name next options)

      both :
          (b : Bool)
          → ((read : Option ℤ) → Behind read)
          → when_int int_of
              (int_or int_of value b (argument_of v))
              (λ next. int_var int_of name next (arguments options))
            ≡ when_int int_of (chosen_or value b (some v)) (λ next. int_over name next options)
      both true behind = behind (int_of (argument_of v))
      both false behind = behind (some value)

-- An attribute that is matched as a whole, or not at all and then zero.
abbrev pub IsWhole : ℕ → List ℕ → List ℕ → Type 0
IsWhole n k m = (length k ≡ n) × (m ≡ replicate n 0xff) ⊎ (k ≡ replicate n 0) × (m ≡ replicate n 0)

abbrev pub IsWholeNumber : ℕ → ℕ → ℕ → Type 0
IsWholeNumber w k m = (k < 2 ^ w) × (m ≡ 2 ^ w - 1) ⊎ (k ≡ 0) × (m ≡ 0)

abbrev pub IsWholeBool : Bool → Bool → Type 0
IsWholeBool k m = (m ≡ true) ⊎ (k ≡ false) × (m ≡ false)

with_text-some :
    {A : Type 0} (text : List ℕ) (parse : List ℕ → Result A)
    (set : A → TunnelFlowKey → TunnelFlowKey) (fk : TunnelFlowKey) (a : A)
    → text ≢ []
    → parse text ≡ ok a
    → with_text text parse set fk ≡ ok (set a fk)
with_text-some [] parse set fk a some_text e = absurd (some_text refl)
with_text-some (c ∷ text) parse set fk a some_text e = rw e refl

pub all_bytes-ones : (n : ℕ) → all_bytes (replicate n 0xff) 0xff ≡ true
unfolding all_bytes
all_bytes-ones zero = refl
all_bytes-ones (suc n) = all_bytes-ones n

all_bytes-no_zeros : (n : ℕ) → all_bytes (replicate (suc n) 0xff) 0 ≡ false
unfolding all_bytes
all_bytes-no_zeros n = refl

pub all_bytes-zeros : (n : ℕ) → all_bytes (replicate n 0) 0 ≡ true
unfolding all_bytes
all_bytes-zeros zero = refl
all_bytes-zeros (suc n) = all_bytes-zeros n

-- Bytes that are printed as `text`, and read back: `start` is the key before, and `end` behind.
pub with_text-print_bytes :
    (n : ℕ) (text : List ℕ → List ℕ) (parse : List ℕ → Result (List ℕ))
    (set : List ℕ → TunnelFlowKey → TunnelFlowKey) (k m : List ℕ) (start end : TunnelFlowKey)
    → IsWhole (suc n) k m
    → (length k ≡ suc n → text k ≢ [])
    → (length k ≡ suc n → parse (text k) ≡ ok k)
    → (m ≡ replicate (suc n) 0xff → set k start ≡ end)
    → (k ≡ replicate (suc n) 0 → m ≡ replicate (suc n) 0 → start ≡ end)
    → with_text (argument_or [] (print_bytes_option k m text)) parse set start ≡ ok end
unfolding print_bytes_option
with_text-print_bytes n text parse set k m start end (inl (l, e)) some_text reads exact ignored =
    rw (e, all_bytes-no_zeros n, all_bytes-ones (suc n))
      (with_text-some (text k) parse set start k (some_text l) (reads l) ∙ ap ok (exact e))
with_text-print_bytes n text parse set k m start end (inr (z, e)) some_text reads exact ignored =
    rw (e, all_bytes-zeros (suc n)) (ap ok (ignored z e))

pub with_text-print_bool :
    (parse : List ℕ → Result Bool) (set : Bool → TunnelFlowKey → TunnelFlowKey) (k m : Bool)
    (start end : TunnelFlowKey)
    → IsWholeBool k m
    → ((b : Bool) → parse (bool_text b) ≡ ok b)
    → (m ≡ true → set k start ≡ end)
    → (k ≡ false → m ≡ false → start ≡ end)
    → with_text (argument_or [] (print_bool_option k m)) parse set start ≡ ok end
with_text-print_bool parse set k m start end (inl e) reads exact ignored =
    rw e (with_text-some (bool_text k) parse set start k (some_text k) (reads k) ∙ ap ok (exact e))
  where
    some_text : (b : Bool) → bool_text b ≢ []
    some_text true = λ e. cc
    some_text false = λ e. cc
with_text-print_bool parse set k m start end (inr (f, e)) reads exact ignored =
    rw e (ap ok (ignored f e))

-- The value of the flag of a number, and what it is taken for.
abbrev pub int_field : ℕ → ℕ → ℤ
int_field k m = if m == 0 then negsuc 0 else pos k

pub read_or-print_int :
    (int_of : List ℕ → Option ℤ) (decimal : ℕ → List ℕ) (w k m : ℕ)
    → 2 ^ w - 1 ≢ 0
    → IsWholeNumber w k m
    → (k < 2 ^ w → k < 65536)
    → ((n : ℕ) → n < 65536 → int_of (decimal n) ≡ some (pos n))
    → read_or int_of (negsuc 0) (print_int_option decimal k m (2 ^ w - 1)) ≡ some (int_field k m)
unfolding print_int_option
read_or-print_int int_of decimal w k m ones (inl (l, e)) small reads =
    rw (e, ==_false (2 ^ w - 1) 0 ones, ==_self (2 ^ w - 1)) (reads k (small l))
read_or-print_int int_of decimal w k m ones (inr (z, e)) small reads = rw e refl

pub with_int-field :
    (w k m : ℕ) (set : ℕ → TunnelFlowKey → TunnelFlowKey) (start end : TunnelFlowKey)
    → 2 ^ w - 1 ≢ 0
    → (k < 2 ^ w → k % 2 ^ w ≡ k)
    → IsWholeNumber w k m
    → (m ≡ 2 ^ w - 1 → set k start ≡ end)
    → (k ≡ 0 → m ≡ 0 → start ≡ end)
    → with_int w (int_field k m) set start ≡ end
with_int-field w k m set start end ones fits (inl (l, e)) exact ignored =
    rw (e, ==_false (2 ^ w - 1) 0 ones)
      (ap (λ (n : ℕ). set n start) {x = k % 2 ^ w} {y = k} (fits l) ∙ exact e)
with_int-field w k m set start end ones fits (inr (z, e)) exact ignored = rw e (ignored z e)
