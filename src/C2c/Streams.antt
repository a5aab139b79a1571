-- ===== src/C2c/Streams.antt =====
-- PICA_client.c: which stream of a channel is open in which state of a transfer.
use pica_pica.Common.{◌≡◌, ℕ, List, Bool, true, false, ◌&&◌, ◌||◌, Option, none, some}
use pica_pica.C2c.State.{Chan, Res, M, ◌>>=◌, done, fault}
use pica_pica.C2c.Files.{is_waitaccept, is_recv_idle, is_send_idle}

abbrev pub is_open : Option (List ℕ) → Bool
is_open none = false
is_open (some bytes) = true

-- Whether the stream is open that the state of a transfer lets a function use.
abbrev pub send_ok : Chan → Bool
send_ok c = is_send_idle c.sendfilestate || is_open c.sendfile_stream

abbrev pub recv_ok : Chan → Bool
recv_ok c =
    is_recv_idle c.recvfilestate || is_waitaccept c.recvfilestate || is_open c.recvfile_stream

abbrev pub streams : Chan → Bool
streams c = send_ok c && recv_ok c

abbrev pub kept : {A : Type 0} → Res A → Bool
kept (done a c) = streams c
kept fault = false

pub bind-kept :
    {A B : Type 0} (m : M A) (f : A → M B) (c : Chan)
    → kept (m c) ≡ true
    → ((a : A) (c' : Chan) → streams c' ≡ true → kept (f a c') ≡ true)
    → kept ((m >>= f) c) ≡ true
bind-kept m f c h k =
    elim (m c)
        as (λ r. kept r ≡ true → kept (elim r [ done a c' ↦ f a c' | fault ↦ fault ]) ≡ true) [
          | done a c' ↦ λ e. k a c' e
          | fault ↦ λ e. e
        ]
      h
