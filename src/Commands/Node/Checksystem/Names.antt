-- ===== src/Commands/Node/Checksystem/Names.antt =====
-- What the searches for a module find in the files of the kernel and in the output of lsmod.
use Prim.Native.Char.{Char}
use mathlib.Core.Path.{subst}
use text.Mathlib.TextLemmas.{nil-append, cons-append}
use operations_calico_contai.Base.{
  String, ◌<>◌, ◌≡◌, ◌∙◌, refl, sym, ap, Bool, true, Option, none, some, List, [], ◌∷◌, ◌↔◌, ◌⊎◌,
  inl, inr, any, arith, Bool-cases, Option-cases,
}
use operations_calico_contai.Base.Text.{after_prefix}
use operations_calico_contai.Base.Text.Laws.{
  IsPart, has_text_iff, after_prefix-some, after_prefix-append,
}
use operations_calico_contai.Commands.Node.Host.{Host}
use operations_calico_contai.Commands.Node.Checksystem.{
  any_then_ko, names_module, check_module, detected,
}

-- The line has the name of the module after a slash, with any character and "ko" after it.
abbrev pub Names : String → String → Type 0
Names name line =
    (before : String) × (c : Char) × (after : String) × (line
      ≡ before <> (("/" <> name) <> String.◌∷◌ c ("ko" <> after)))

any_then_ko-some :
    (r : String)
    → any_then_ko (some r) ≡ true
    → (c : Char) × (after : String) × (r ≡ String.◌∷◌ c ("ko" <> after))
unfolding any_then_ko
any_then_ko-some String.[] h = absurd (ground arith)
any_then_ko-some (String.◌∷◌ c s) h = elim (Option-cases (after_prefix "ko" s)) [
  | inl nothing ↦ absurd (ground arith)
  | inr (after, found) ↦ (c, after, ap (λ t. String.◌∷◌ c t) (after_prefix-some "ko" s found))
]

any_then_ko-append :
    (c : Char) (after : String) → any_then_ko (some (String.◌∷◌ c ("ko" <> after))) ≡ true
unfolding any_then_ko
any_then_ko-append c after = rw (after_prefix-append "ko" after, any_then_ko) refl

Names-here :
    (name s : String) (o : Option String)
    → after_prefix ("/" <> name) s ≡ o
    → any_then_ko o ≡ true
    → Names name s
unfolding any_then_ko
Names-here name s none found h = absurd (ground arith)
Names-here name s (some r) found h =
    let (c, after, same) = any_then_ko-some r h in
    (
      "",
      c,
      after,
      after_prefix-some ("/" <> name) s found
          ∙ (ap (λ t. ("/" <> name) <> t) same
              ∙ sym (nil-append (("/" <> name) <> String.◌∷◌ c ("ko" <> after)))),
    )

Names-cons : (name s : String) (d : Char) → Names name s → Names name (String.◌∷◌ d s)
Names-cons name s d (before, c, after, same) = (
  String.◌∷◌ d before,
  c,
  after,
  ap (λ t. String.◌∷◌ d t) same
      ∙ sym (cons-append d before (("/" <> name) <> String.◌∷◌ c ("ko" <> after))),
)

names_module-Names : (name line : String) → names_module name line ≡ true → Names name line
unfolding names_module
names_module-Names name String.[] h = absurd (ground arith)
names_module-Names name (String.◌∷◌ d s) h =
    elim (Bool-cases (any_then_ko (after_prefix ("/" <> name) (String.◌∷◌ d s)))) [
      | inl here ↦ Names-here name (String.◌∷◌ d s) _ refl here
      | inr later ↦ Names-cons name s d (names_module-Names name s (ground arith))
    ]

after_slash-nil : (name : String) → after_prefix ("/" <> name) "" ≡ none
unfolding after_prefix
after_slash-nil name = rw (cons-append "/" "" name) refl

names_module-starts :
    (name s : String)
    → any_then_ko (after_prefix ("/" <> name) s) ≡ true
    → names_module name s ≡ true
unfolding names_module any_then_ko
names_module-starts name String.[] h = absurd (ground (arith, after_slash-nil name))
names_module-starts name (String.◌∷◌ d s) h = rw (h, names_module) refl

names_module-match :
    (name : String) (c : Char) (after : String)
    → names_module name (("/" <> name) <> String.◌∷◌ c ("ko" <> after)) ≡ true
names_module-match name c after =
    names_module-starts name (("/" <> name) <> String.◌∷◌ c ("ko" <> after)) (
      rw (after_prefix-append ("/" <> name) (String.◌∷◌ c ("ko" <> after)))
        (any_then_ko-append c after))

names_module-later :
    (name s : String) (d : Char)
    → names_module name s ≡ true
    → names_module name (String.◌∷◌ d s) ≡ true
unfolding names_module
names_module-later name s d h = ground arith

names_module-append :
    (name before : String) (c : Char) (after : String)
    → names_module name (before <> (("/" <> name) <> String.◌∷◌ c ("ko" <> after))) ≡ true
names_module-append name String.[] c after =
    rw (nil-append (("/" <> name) <> String.◌∷◌ c ("ko" <> after)))
      (names_module-match name c after)
names_module-append name (String.◌∷◌ d before) c after =
    rw (cons-append d before (("/" <> name) <> String.◌∷◌ c ("ko" <> after))) (
      names_module-later name (before <> (("/" <> name) <> String.◌∷◌ c ("ko" <> after))) d
        (names_module-append name before c after))

pub names_module_iff : (name line : String) → (names_module name line ≡ true) ↔ Names name line
names_module_iff name line = (
  names_module-Names name line,
  λ (before, c, after, same). rw same (names_module-append name before c after),
)

-- One of the elements has the property.
abbrev pub Some : (String → Type 0) → List String → Type 0
Some P [] = ⊥
Some P (x ∷ xs) = P x ⊎ Some P xs

any_iff :
    (p : String → Bool) (P : String → Type 0)
    → ((x : String) → (p x ≡ true) ↔ P x)
    → (xs : List String) → (any p xs ≡ true) ↔ Some P xs
any_iff p P iff [] = (λ h. absurd (ground arith), λ h. absurd h)
any_iff p P iff (x ∷ xs) = (
  λ h. elim (Bool-cases (p x)) [
    | inl here ↦ inl ((iff x).0 here)
    | inr not_here ↦ inr ((any_iff p P iff xs).0 (ground arith))
  ],
  λ h. elim h [
    | inl here ↦ rw ((iff x).1 here) refl
    | inr later ↦ ground (arith, (any_iff p P iff xs).1 later)
  ],
)

module _ {S : Type 0} (h : Host S) where
  -- The file can be opened, and one of its lines names the module.
  abbrev pub FileNames : String → String → S → Type 0
  FileNames filename name s =
      (lines : List String) × (h.read_lines filename s ≡ some lines) × Some (Names name) lines

  check_module_iff :
      (filename name : String) (s : S) (o : Option (List String))
      → h.read_lines filename s ≡ o
      → (check_module h filename name s ≡ true) ↔ FileNames filename name s
  unfolding check_module
  check_module_iff filename name s none e =
      (λ c. absurd (ground arith), λ (lines, found, _). absurd (ground arith))
  check_module_iff filename name s (some lines) e =
      let iff = any_iff (names_module name) (Names name) (names_module_iff name) lines in
      (
        λ c. (lines, e, iff.0 (ground arith)),
        λ (others, found, named).
            let same : others ≡ lines = ground arith in
            rw (e, check_module) (iff.1 (subst (Some (Names name)) same named)),
      )

  -- A module is detected exactly if a line of one of the two files of the kernel has a slash, the
  -- name of the module, any character and "ko" in a row, or the output of lsmod has the name in
  -- it.
  pub detected_iff :
      (version lsmod name : String) (s : S)
      → (detected h version lsmod name s ≡ true) ↔ (
          FileNames ("/lib/modules/" <> version <> "/modules.dep") name s
          ⊎ FileNames ("/lib/modules/" <> version <> "/modules.builtin") name s
          ⊎ IsPart name lsmod)
  unfolding detected
  detected_iff version lsmod name s =
      let dep = check_module_iff ("/lib/modules/" <> version <> "/modules.dep") name s _ refl in
      let builtin =
        check_module_iff ("/lib/modules/" <> version <> "/modules.builtin") name s _ refl in
      let loaded = has_text_iff name lsmod in
      (
        λ d.
            elim (Bool-cases
              (check_module h ("/lib/modules/" <> version <> "/modules.dep") name s)) [
                | inl yes_dep ↦ inl (dep.0 yes_dep)
                | inr no_dep ↦
                    elim (Bool-cases
                      (check_module h ("/lib/modules/" <> version <> "/modules.builtin") name s)) [
                        | inl yes_builtin ↦ inr (inl (builtin.0 yes_builtin))
                        | inr no_builtin ↦ inr (inr (loaded.0 (ground arith)))
                      ]
              ],
        λ d. elim d [
          | inl in_dep ↦ rw (dep.1 in_dep) refl
          | inr (inl in_builtin) ↦ ground (arith, builtin.1 in_builtin)
          | inr (inr in_lsmod) ↦ ground (arith, loaded.1 in_lsmod)
        ],
      )
