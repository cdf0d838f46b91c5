-- ===== src/Read/Names.antt =====
-- The tables of names of src/actions/error.c and src/actions/emit.c.
use libinject.Base.{List, [], ◌∷◌, Text, codes, ℤ, pos}

-- The errno numbers of Linux.
abbrev pub errors : List (Text × ℤ)
errors =
    (codes "EAGAIN", pos 11)
    ∷ (codes "EBADF", pos 9)
    ∷ (codes "EFAULT", pos 14)
    ∷ (codes "EINVAL", pos 22)
    ∷ (codes "EIO", pos 5)
    ∷ (codes "EBADF", pos 9)
    ∷ (codes "EPERM", pos 1)
    ∷ (codes "EACCES", pos 13)
    ∷ (codes "EADDRINUSE", pos 98)
    ∷ (codes "EAFNOSUPPORT", pos 97)
    ∷ (codes "EALREADY", pos 114)
    ∷ (codes "EPERM", pos 1)
    ∷ (codes "EBADF", pos 9)
    ∷ (codes "ECONNREFUSED", pos 111)
    ∷ (codes "EFAULT", pos 14)
    ∷ (codes "EINPROGRESS", pos 115)
    ∷ (codes "EISCONN", pos 106)
    ∷ (codes "ENETUNREACH", pos 101)
    ∷ (codes "ENOTSOCK", pos 88)
    ∷ (codes "ETIMEDOUT", pos 110)
    ∷ []

-- The signal numbers of Linux, with every optional one.
abbrev pub signals : List (Text × ℤ)
signals =
    (codes "SIGHUP", pos 1)
    ∷ (codes "SIGINT", pos 2)
    ∷ (codes "SIGQUIT", pos 3)
    ∷ (codes "SIGILL", pos 4)
    ∷ (codes "SIGABRT", pos 6)
    ∷ (codes "SIGFPE", pos 8)
    ∷ (codes "SIGKILL", pos 9)
    ∷ (codes "SIGSEGV", pos 11)
    ∷ (codes "SIGPIPE", pos 13)
    ∷ (codes "SIGALRM", pos 14)
    ∷ (codes "SIGTERM", pos 15)
    ∷ (codes "SIGUSR1", pos 10)
    ∷ (codes "SIGUSR2", pos 12)
    ∷ (codes "SIGCHLD", pos 17)
    ∷ (codes "SIGCONT", pos 18)
    ∷ (codes "SIGSTOP", pos 19)
    ∷ (codes "SIGTSTP", pos 20)
    ∷ (codes "SIGTTIN", pos 21)
    ∷ (codes "SIGTTOU", pos 22)
    ∷ (codes "SIGBUS", pos 7)
    ∷ (codes "SIGPOLL", pos 29)
    ∷ (codes "SIGPROF", pos 27)
    ∷ (codes "SIGSYS", pos 31)
    ∷ (codes "SIGTRAP", pos 5)
    ∷ (codes "SIGURG", pos 23)
    ∷ (codes "SIGVTALRM", pos 26)
    ∷ (codes "SIGXCPU", pos 24)
    ∷ (codes "SIGXFSZ", pos 25)
    ∷ (codes "SIGIOT", pos 6)
    ∷ (codes "SIGSTKFLT", pos 16)
    ∷ (codes "SIGIO", pos 29)
    ∷ (codes "SIGCLD", pos 17)
    ∷ (codes "SIGPWR", pos 30)
    ∷ (codes "SIGWINCH", pos 28)
    ∷ (codes "SIGUNUSED", pos 31)
    ∷ []
