-- ===== src/C2c/Messages/Names.antt =====
-- PICA_client.c: the names of the files that a request of the peer makes the client open.
use pica_pica.Common.{
  ℕ, ◌+◌, ◌≡◌, ◌≢◌, refl, ◌∙◌, sym, ◌⊎◌, inl, inr, List, [], ◌∷◌, ◌++◌, Bool, true, false, ltb,
  take, drop, arith, Bool-cases,
}
use pica_pica.Node.Wbuf.{malloc}
use pica_pica.C2c.State.{Chan, Res, M, done, fault, ◌>>=◌, c2c_writebuf_push}
use pica_pica.C2c.Files.{is_recv_idle, is_waitaccept, c_string, deny_file, accept_file}
use pica_pica.C2c.Files.Kept.{recvfile_opened}
use pica_pica.C2c.Messages.{
  Decision, accept_now, ask_later, deny_now, on_decision, deny_or_fail, has_byte, has_dots,
  validate_file_name, procmsg_sendfilerequest, filenamesize,
}

-- A name of a file in the directory where it is opened: it holds no `/`, no `:`, no `*` and no two
-- dots in a row.
pub record SafeName (name : List ℕ) : Type 0 where
  pub no_slash : (pre post : List ℕ) → name ≢ pre ++ (47 ∷ post)
  pub no_colon : (pre post : List ℕ) → name ≢ pre ++ (58 ∷ post)
  pub no_star : (pre post : List ℕ) → name ≢ pre ++ (42 ∷ post)
  pub no_dots : (pre post : List ℕ) → name ≢ pre ++ (46 ∷ 46 ∷ post)

has_byte-at : (x : ℕ) (pre post : List ℕ) → has_byte x (pre ++ (x ∷ post)) ≡ true
unfolding has_byte
has_byte-at x [] post = ground arith
has_byte-at x (y ∷ pre) post = ground (arith, has_byte-at x pre post)

has_dots-at : (pre post : List ℕ) → has_dots (pre ++ (46 ∷ 46 ∷ post)) ≡ true
unfolding has_dots
has_dots-at [] post = ground arith
has_dots-at (y ∷ []) post = ground arith
has_dots-at (y ∷ z ∷ pre) post = ground (arith, has_dots-at (z ∷ pre) post)

no_byte : (x : ℕ) (name pre post : List ℕ) → has_byte x name ≡ false → name ≢ pre ++ (x ∷ post)
no_byte x name pre post h e = let k : false ≡ true = sym (rw e at h) ∙ has_byte-at x pre post in cc

no_two_dots : (name pre post : List ℕ) → has_dots name ≡ false → name ≢ pre ++ (46 ∷ 46 ∷ post)
no_two_dots name pre post h e = let k : false ≡ true = sym (rw e at h) ∙ has_dots-at pre post in cc

validate_file_name-SafeName :
    (name : List ℕ) → validate_file_name name ≡ true → SafeName (c_string name)
unfolding validate_file_name
validate_file_name-SafeName name h =
    let str = c_string name in
    record {
      no_slash = λ pre post. no_byte 47 str pre post (ground arith);
      no_colon = λ pre post. no_byte 58 str pre post (ground arith);
      no_star = λ pre post. no_byte 42 str pre post (ground arith);
      no_dots = λ pre post. no_two_dots str pre post (ground arith);
    }

-- What has been opened in the end, of a computation that is not at fault.
abbrev pub opened_of : {A : Type 0} → List (List ℕ) → Res A → List (List ℕ)
opened_of names (done a c) = c.opened
opened_of names fault = names

bind-opened_of :
    {A B : Type 0} (m : M A) (f : A → M B) (names : List (List ℕ)) (c : Chan)
    → opened_of names (m c) ≡ names
    → ((a : A) (c' : Chan) → c'.opened ≡ names → opened_of names (f a c') ≡ names)
    → opened_of names ((m >>= f) c) ≡ names
bind-opened_of m f names c h k =
    elim (m c)
        as (λ r.
          opened_of names r ≡ names
          → opened_of names (elim r [ done a c' ↦ f a c' | fault ↦ fault ]) ≡ names) [
            | done a c' ↦ λ e. k a c' e
            | fault ↦ λ e. e
          ]
      h

deny_or_fail-opened_of :
    (c : Chan) (names : List (List ℕ)) → c.opened ≡ names → opened_of names (deny_or_fail c) ≡ names
unfolding deny_or_fail deny_file c2c_writebuf_push
deny_or_fail-opened_of c names e = ground arith

accept_opened-opened_of :
    (name : List ℕ) (c : Chan) (answer : Bool × List Bool)
    → is_waitaccept c.recvfilestate ≡ true
    → malloc c.opens ≡ answer
    → let names = c.opened ++ (c_string name ∷ []) in opened_of names (accept_file name c) ≡ names
unfolding accept_file c2c_writebuf_push
accept_opened-opened_of name c (true, opens') k e =
    rw k (rw (recvfile_opened name c e, ◌>>=◌) (ground arith))
accept_opened-opened_of name c (false, opens') k e =
    rw k (rw (recvfile_opened name c e, ◌>>=◌) refl)

-- What a request opens, by the application's decision.
abbrev names_after : Decision → List ℕ → Chan → List (List ℕ)
names_after accept_now name c = c.opened ++ (c_string name ∷ [])
names_after ask_later name c = c.opened
names_after deny_now name c = c.opened

on_decision-opened_of :
    (d : Decision) (name : List ℕ) (c : Chan)
    → is_waitaccept c.recvfilestate ≡ true
    → opened_of (names_after d name c) (on_decision d name c) ≡ names_after d name c
unfolding on_decision
on_decision-opened_of accept_now name c k =
    bind-opened_of (accept_file name) _ _ c (accept_opened-opened_of name c (malloc c.opens) k refl)
      (λ ret c' e. ground (arith, deny_or_fail-opened_of c' _ e))
on_decision-opened_of ask_later name c k = refl
on_decision-opened_of deny_now name c k = deny_or_fail-opened_of c c.opened refl

one_of :
    {A : Type 0} (r : Res A) (names old : List (List ℕ))
    → opened_of names r ≡ names
    → (opened_of old r ≡ old) ⊎ (opened_of old r ≡ names)
one_of (done a c) names old h = inr h
one_of fault names old h = inl refl

-- What has been opened after the decision, of a computation that may be at fault.
opens_one :
    (d : Decision) (name : List ℕ) (c : Chan)
    → is_waitaccept c.recvfilestate ≡ true
    → (opened_of c.opened (on_decision d name c) ≡ c.opened)
      ⊎ (opened_of c.opened (on_decision d name c) ≡ c.opened ++ (c_string name ∷ []))
opens_one accept_now name c k =
    one_of (on_decision accept_now name c) _ c.opened (on_decision-opened_of accept_now name c k)
opens_one ask_later name c k = inl (on_decision-opened_of ask_later name c k)
opens_one deny_now name c k = inl (on_decision-opened_of deny_now name c k)

-- A request of the peer makes the client open no file, or one file, whose name is the request's and is
-- safe: it holds none of `/`, `:` and `*`, and no two dots in a row, so that it is a name in the
-- directory that the application is in.
pub sendfilerequest-SafeName :
    (decide : ℕ → List ℕ → Decision) (buf : List ℕ) (nb : ℕ) (c : Chan)
    → let name = c_string (take (filenamesize buf) (drop 12 buf)) in
      let opened = opened_of c.opened (procmsg_sendfilerequest decide buf nb c) in
      (opened ≡ c.opened) ⊎ ((opened ≡ c.opened ++ (name ∷ [])) × SafeName name)
unfolding procmsg_sendfilerequest
sendfilerequest-SafeName decide buf nb c =
    let name = take (filenamesize buf) (drop 12 buf) in
    elim (Bool-cases (is_recv_idle c.recvfilestate)) [
      | inl i ↦ elim (Bool-cases (ltb nb (12 + filenamesize buf))) [
        | inl l ↦ inl (rw (i, l) refl)
        | inr l ↦ elim (Bool-cases (validate_file_name name)) [
          | inl v ↦ elim (opens_one _ name _ refl) [
            | inl o ↦ inl (rw (i, l, v) o)
            | inr o ↦ inr (rw (i, l, v) o, validate_file_name-SafeName name v)
          ]
          | inr v ↦ inl (rw (i, l, v) refl)
        ]
      ]
      | inr i ↦ inl (rw i refl)
    ]
