-- ===== src/Rwg/Builtins/Laws.antt =====
-- Which lines end the server, and what a name is refused for.
use network_programming.Base.{
  Bool, true, false, ◌&&◌, List, [], ◌∷◌, Option, none, some, Text, codes, text_eq, text_eq_iff,
  if◌then◌else◌, ◌≡◌, ◌↔◌, arith, refl, sym, ◌∙◌, subst, words, stoi, ℤ, ◌>>=◌,
}
use network_programming.Rwg.Clients.{Client}
use network_programming.Rwg.Server.{Server}
use network_programming.Rwg.Builtins.{
  builtin, handle_rwg_builtin, tell_words, tell, handled, skip_segment, tell_to, find_signed,
}

-- A `tell` with a message whose second word std::stoi does not read.
abbrev pub IsBadTell : List Text → Type 0
IsBadTell (command ∷ id ∷ word ∷ rest) = (command ≡ codes "tell") × (stoi id ≡ none)
IsBadTell _ = ⊥

abbrev throws : Option (Server × Bool) → Bool
throws none = true
throws (some result) = false

throws-if :
    (b : Bool) (x y : Option (Server × Bool))
    → throws (if b then x else y) ≡ (if b then throws x else throws y)
throws-if true x y = refl
throws-if false x y = refl

abbrev unread : Option ℤ → Bool
unread none = true
unread (some id) = false

tell-throws :
    (client : Client) (id_text : Text) (message : List Text) (s : Server)
    → throws (handled (tell client id_text message s)) ≡ unread (stoi id_text)
unfolding tell
tell-throws client id_text message s = go (stoi id_text)
  where
    go :
        (o : Option ℤ)
        → throws (
            handled (
              o >>= λ n.
              some (skip_segment client (tell_to client n message (find_signed s.clients n) s))))
          ≡ unread o
    go none = refl
    go (some n) = refl

-- The arguments of a `tell` whose second word std::stoi does not read.
unread_words : List Text → Bool
unread_words (id ∷ word ∷ rest) = unread (stoi id)
unread_words _ = false

tell_words-throws :
    (client : Client) (arguments : List Text) (s : Server)
    → throws (handled (tell_words client arguments s)) ≡ unread_words arguments
unfolding tell_words unread_words
tell_words-throws client [] s = refl
tell_words-throws client (a ∷ []) s = refl
tell_words-throws client (a ∷ b ∷ rest) s = tell-throws client a (b ∷ rest) s

-- One of four commands, of which only the third may throw.
throws-third :
    (a b c d : Bool) (x y z w : Server × Bool) (third : Option (Server × Bool)) (unreadable : Bool)
    → (a ≡ true → c ≡ false)
    → (b ≡ true → c ≡ false)
    → throws third ≡ unreadable
    → throws (
        if a
        then some x
        else if b
        then some y
        else if c
        then third
        else if d
        then some z
        else some w)
      ≡ (c && unreadable)
throws-third true b c d x y z w third u first second h = rw (first refl) refl
throws-third false true c d x y z w third u first second h = rw (second refl) refl
throws-third false false true d x y z w third u first second h = h
throws-third false false false true x y z w third u first second h = refl
throws-third false false false false x y z w third u first second h = refl

not_tell :
    (name other : Text)
    → text_eq other (codes "tell") ≡ false
    → text_eq name other ≡ true
    → text_eq name (codes "tell") ≡ false
not_tell name other h e =
    subst (λ t. text_eq t (codes "tell") ≡ false) (sym ((text_eq_iff name other).0 e)) h

builtin-throws :
    (client : Client) (name : Text) (arguments : List Text) (s : Server)
    → throws (builtin client (name ∷ arguments) s)
      ≡ (text_eq name (codes "tell") && unread_words arguments)
unfolding builtin
builtin-throws client name arguments s =
    throws-third (text_eq name (codes "who")) (text_eq name (codes "name"))
      (text_eq name (codes "tell")) (text_eq name (codes "yell")) _ _ _ _
      (handled (tell_words client arguments s)) (unread_words arguments)
      (not_tell name (codes "who") refl) (not_tell name (codes "name") refl)
      (tell_words-throws client arguments s)

none_of : (o : Option (Server × Bool)) → (o ≡ none) ↔ (throws o ≡ true)
none_of none = (λ h. refl, λ h. refl)
none_of (some result) = (λ h. cc, λ h. cc)

bad_tell :
    (name : Text) (arguments : List Text)
    → ((text_eq name (codes "tell") && unread_words arguments) ≡ true)
      ↔ IsBadTell (name ∷ arguments)
unfolding unread_words
bad_tell name [] = (λ h. ground arith, λ h. ground arith)
bad_tell name (id ∷ []) = (λ h. ground arith, λ h. ground arith)
bad_tell name (id ∷ word ∷ rest) = go (stoi id)
  where
    go :
        (o : Option ℤ)
        → ((text_eq name (codes "tell") && unread o) ≡ true) ↔ ((name ≡ codes "tell") × (o ≡ none))
    go none = (
      λ h. ((text_eq_iff name (codes "tell")).0 (ground arith), refl),
      λ h. ground (arith, (text_eq_iff name (codes "tell")).1 h.0),
    )
    go (some n) = (λ h. ground arith, λ h. cc (h.1))

-- A call of `handleRwgBuiltin` on a line of a user ends in an exception exactly if the line is a `tell`
-- with a message whose second word std::stoi does not read.
pub handle_rwg_builtin-IsBadTell :
    (client : Client) (line : Text) (s : Server)
    → (handle_rwg_builtin client line s ≡ none) ↔ IsBadTell (words line)
unfolding handle_rwg_builtin
handle_rwg_builtin-IsBadTell client line s = go (words line)
  where
    go : (tokens : List Text) → (builtin client tokens s ≡ none) ↔ IsBadTell tokens
    go [] = (λ h. cc, λ h. elim h [ ])
    go (name ∷ arguments) =
        let result = builtin client (name ∷ arguments) s in
        let threw = builtin-throws client name arguments s in
        (
          λ h. (bad_tell name arguments).0 (sym threw ∙ (none_of result).0 h),
          λ h. (none_of result).1 (threw ∙ (bad_tell name arguments).1 h),
        )
