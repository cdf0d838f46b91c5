-- ===== src/Socket/Lifecycle.antt =====
-- The references to a socket's info in src/socketinfo.c.
use libinject.Base.{
  ℕ, ◌+◌, true, false, ◌&&◌, Option, none, some, ◌≡◌, ◌⊎◌, inl, inr, refl, ◌==◌, if◌then◌else◌, pos,
  eq_ℤ, increment_ℤ, decrement-increment, Bool-cases, Option-cases,
}
use libinject.Socket.{
  SocketInfo, SocketFacts, lock, unlock, check, fetch_data, known_proto, is_udp, type_changed,
}

-- Every reference that `SocketInfo_lock` takes is given back by one `SocketInfo_unlock`: the info
-- is as before, but one that is to be destroyed and that nobody else holds is freed.
pub unlock-lock :
    (si : SocketInfo)
    → unlock (lock si) ≡ (if si.to_destroy && eq_ℤ si.sem (pos 0) then none else some si)
unfolding lock unlock
unlock-lock si = rw (decrement-increment)

-- How `SocketInfo_check` leaves an info that has `n` references.
abbrev pub Checked : SocketInfo → ℕ → Option SocketInfo × Option SocketInfo → Type 0
Checked si n r =
    ((held : SocketInfo) × (r ≡ (some held, some held))
      × (held.sem ≡ pos (n + 1))
      × (held.to_destroy ≡ false)
      × (held.fd ≡ si.fd)
      × (held.remote ≡ si.remote))
    ⊎ ((r.1 ≡ none)
        × (r.0 ≡ (if n == 0 then none else some (record si { sem = pos n; to_destroy = true }))))

pub unlock-released :
    (si : SocketInfo) (n : ℕ)
    → si.sem ≡ pos n
    → unlock (record (lock si) { to_destroy = true })
      ≡ (if n == 0 then none else some (record si { sem = pos n; to_destroy = true }))
unfolding lock unlock
unlock-released si n e = rw (decrement-increment, e)

-- `SocketInfo_check` on an info with `n` references either returns it with one more reference and
-- not to be destroyed, its descriptor and remote end unchanged, or returns NULL, and then the info
-- is freed if nobody else held it and else is left with its `n` references and to be destroyed.
pub check-references :
    (os : SocketFacts) (si : SocketInfo) (n : ℕ) → si.sem ≡ pos n → Checked si n (check os si)
unfolding check lock unlock
check-references os si n e =
    let up : increment_ℤ si.sem ≡ pos (n + 1) = rw e in
    let down = unlock-released si n e in
    elim (Bool-cases si.to_destroy) [
      | inl d ↦ rw d (inr (refl, down))
      | inr d ↦ elim (Bool-cases (is_udp si.proto && type_changed (known_proto os.socket_type))) [
        | inl u ↦ rw (d, u) (inr (refl, down))
        | inr u ↦ elim (Bool-cases (eq_ℤ si.local.port (pos 0))) [
          | inr z ↦
              rw (d, u, z)
                (inl (record (lock si) { to_destroy = false }, refl, up, refl, refl, refl))
          | inl z ↦ elim (Option-cases (fetch_data os.sock_name si.local)) [
            | inl f ↦ rw (d, u, z, f) (inr (refl, down))
            | inr (h, f) ↦
                rw (d, u, z, f)
                  (inl (
                    record (lock si) { to_destroy = false; local = h },
                    refl,
                    up,
                    refl,
                    refl,
                    refl,
                  ))
          ]
        ]
      ]
    ]
