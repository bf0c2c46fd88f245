-- ===== src/Samples/EpollTable.antt =====
-- epoll, as a table from descriptors to the bits that are registered.
use crawler.Base.{ℕ, ◌≡◌, refl, sym, ap, Option, none, some, if◌then◌else◌, ◌==◌}
use crawler.Epoll.{Mask, CtlOp, ctl_add, ctl_mod, ctl_del, Epoll, registered, IsEpoll}

abbrev Table : Type 0
Table = ℕ → Option Mask

abbrev put_entry : Table → ℕ → Option Mask → Table
put_entry s fd m g = if fd == g then m else s g

abbrev table_ctl : Table → CtlOp → ℕ → Mask → Option Mask → Option Table
table_ctl s ctl_add fd m none = some (put_entry s fd (some m))
table_ctl s ctl_mod fd m (some old) = some (put_entry s fd (some m))
table_ctl s ctl_del fd m (some old) = some (put_entry s fd none)
table_ctl s _ fd m _ = none

-- ADD wants no entry, and MOD and DEL want one.
abbrev pub epoll_table : Epoll
epoll_table = record {
  Set = Table;
  ctl = λ s op fd m. table_ctl s op fd m (s fd);
  interest = λ s fd. s fd;
}

abbrev entry_of : ℕ → Option Table → Option Mask
entry_of g none = none
entry_of g (some s) = s g

table_ctl-entry :
    (s s' : Table) (op : CtlOp) (fd g : ℕ) (m : Mask) (old : Option Mask)
    → table_ctl s op fd m old ≡ some s'
    → s' g ≡ (if fd == g then registered op m else s g)
table_ctl-entry s s' ctl_add fd g m none e = ap (entry_of g) (sym e)
table_ctl-entry s s' ctl_add fd g m (some old) e = cc
table_ctl-entry s s' ctl_mod fd g m none e = cc
table_ctl-entry s s' ctl_mod fd g m (some old) e = ap (entry_of g) (sym e)
table_ctl-entry s s' ctl_del fd g m none e = cc
table_ctl-entry s s' ctl_del fd g m (some old) e = ap (entry_of g) (sym e)

table_ctl-absent :
    (s s' : Table) (fd : ℕ) (m : Mask) (old : Option Mask)
    → table_ctl s ctl_add fd m old ≡ some s'
    → old ≡ none
table_ctl-absent s s' fd m none e = refl
table_ctl-absent s s' fd m (some old) e = cc

pub epoll_table-IsEpoll : IsEpoll epoll_table
epoll_table-IsEpoll = record {
  interest-ctl = λ s s' op fd g m e. table_ctl-entry s s' op fd g m (s fd) e;
  add_absent = λ s s' fd m e. table_ctl-absent s s' fd m (s fd) e;
}
