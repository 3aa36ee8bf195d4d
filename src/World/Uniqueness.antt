-- ===== src/World/Uniqueness.antt =====
-- The inode numbers that several clients of one namespace generate.
use h_flat.Base.{ℕ, suc, ◌≤◌, ◌≡◌, ◌∷◌, some}
use h_flat.World.State.{System, World, done}
use h_flat.World.Util.{grab_inode_generation_token, generate_inode_number}
use h_flat.World.Inodes.{Counting, IsRefreshed}
use h_flat.World.Apart.{Clients, with_world}

module _ {S : Type 0} (sys : System S) (counts : Counting sys) where
  -- One call: a client mounts the file system, or generates a number, in both of which a request for a
  -- block gets it; or any call that does not take the number under the key of the inode numbers back,
  -- such as a mount that fails.
  pub data Step : Clients S → Clients S → Type 0 where
    mounts :
        (c : Clients S) (fuel i : ℕ) (w w' : World S)
        → w.inum_counter ≡ 0
        → grab_inode_generation_token sys (suc fuel) (record w { env = c.env }) ≡ done (0, w')
        → Step c (record c { worlds = with_world i w' c.worlds; env = w'.env })
    generates :
        (c : Clients S) (fuel i n : ℕ) (w w' : World S)
        → c.worlds i ≡ some w
        → IsRefreshed sys (suc fuel) (record w { env = c.env })
        → generate_inode_number sys (suc fuel) (record w { env = c.env }) ≡ done (n, w')
        → Step c (record { worlds = with_world i w' c.worlds; env = w'.env; issued = n ∷ c.issued })
    others :
        (c : Clients S) (s : S)
        → counts.token c.env ≤ counts.token s
        → Step c (record c { env = s })

  pub data Reach (start : Clients S) : Clients S → Type 0 where
    here : Reach start start
    next : {c d : Clients S} → Reach start c → Step c d → Reach start d
