-- ===== src/Ftp/Server/Sent.antt =====
-- The connections of lab1/ftp_server.cpp in its state.
use mathlib.Core.Path.{fun_ext}
use computer_system24fall.Common.{ℕ, ◌≡◌, refl, ap, List, arith, ==_iff}
use computer_system24fall.Ftp.Exec.{Exec}
use computer_system24fall.Ftp.Stream.{Link}
use computer_system24fall.Ftp.Talk.{Port, Talks}
use computer_system24fall.Ftp.Server.{Server, update}

pub update_self {ℓ} : {A : Type ℓ} (f : ℕ → A) (k : ℕ) (v : A) → update f k v k ≡ v
update_self f k v = rw ((==_iff k k).1 refl) refl

pub update-update {ℓ} :
    {A : Type ℓ} (f : ℕ → A) (k : ℕ) (v w : A) → update (update f k v) k w ≡ update f k w
update-update f k v w = fun_ext λ i. ground arith

pub update-same {ℓ} : {A : Type ℓ} (f : ℕ → A) (k : ℕ) → update f k (f k) ≡ f
update-same f k = fun_ext λ i. ground arith

module _ {Disk : Type 0} where
  -- The state with the link of `fd` replaced.
  abbrev pub with_link : Server Disk → ℕ → Link → Server Disk
  with_link s fd l = record s { links = update s.links fd l }

  abbrev pub port : ℕ → Port (Server Disk)
  port fd = record {
    view = λ s. s.links fd;
    put = λ s l. with_link s fd l;
    put_put =
        λ s l l'. ap (λ (f : ℕ → Link). record s { links = f }) (update-update s.links fd l l');
    put_view = λ s. ap (λ (f : ℕ → Link). record s { links = f }) (update-same s.links fd);
    view_put = λ s l. update_self s.links fd l;
  }

  abbrev pub Serves :
      {A : Type 0}
      → ℕ
      → Exec (Server Disk) A
      → ℕ
      → Server Disk
      → A
      → Server Disk
      → List ℕ
      → List ℕ
      → Type 0
  Serves n m fd s r s' taken given = Talks n m (port fd) s r s' taken given
