-- ===== src/ErrorCode/Tests.antt =====
-- Error codes under numbers for libuv's constants that differ.
use uvexec.Base.{
  ℕ, zero, suc, ◌≡◌, refl, sym, ap, ◌∙◌, Option, none, some, List, [], ◌∷◌, ℤ, pos, negsuc,
}
use uvexec.ErrorCode.Names.{
  Constant, uv_eai_addrfamily, uv_eai_badflags, uv_eai_noname, uv_eai_overflow, uv_eai_badhints,
  uv_eai_fail, uv_eai_family, uv_eai_memory, uv_eai_nodata, uv_eai_protocol, uv_eai_canceled,
  uv_eai_service, uv_eai_socktype, uv_eai_again, uv_eafnosupport, uv_eaddrinuse, uv_eaddrnotavail,
  uv_eisconn, uv_e2big, uv_efault, uv_ebadf, uv_epipe, uv_econnaborted, uv_ealready,
  uv_econnrefused, uv_econnreset, uv_exdev, uv_edestaddrreq, uv_ebusy, uv_enotempty, uv_eof,
  uv_eexist, uv_efbig, uv_enametoolong, uv_enosys, uv_ehostunreach, uv_eilseq, uv_eftype, uv_enotty,
  uv_eintr, uv_einval, uv_echarset, uv_espipe, uv_eio, uv_eisdir, uv_emsgsize, uv_enetdown,
  uv_enetunreach, uv_enobufs, uv_enodata, uv_enoprotoopt, uv_enospc, uv_enxio, uv_enodev, uv_enoent,
  uv_esrch, uv_enotdir, uv_enotsock, uv_enotconn, uv_enomem, uv_enonet, uv_enotsup, uv_ecanceled,
  uv_eperm, uv_eacces, uv_eproto, uv_eunatch, uv_eprotonosupport, uv_erofs, uv_eagain, uv_erange,
  uv_esocktnosupport, uv_etxtbsy, uv_etimedout, uv_enfile, uv_emfile, uv_emlink, uv_eloop,
  uv_eshutdown, uv_unknown, uv_eoverflow, uv_eprototype,
}

abbrev constants : List Constant
constants =
    uv_eai_addrfamily ∷ uv_eai_badflags ∷ uv_eai_noname ∷ uv_eai_overflow ∷ uv_eai_badhints
    ∷ uv_eai_fail ∷ uv_eai_family ∷ uv_eai_memory ∷ uv_eai_nodata ∷ uv_eai_protocol
    ∷ uv_eai_canceled ∷ uv_eai_service ∷ uv_eai_socktype ∷ uv_eai_again ∷ uv_eafnosupport
    ∷ uv_eaddrinuse ∷ uv_eaddrnotavail ∷ uv_eisconn ∷ uv_e2big ∷ uv_efault ∷ uv_ebadf ∷ uv_epipe
    ∷ uv_econnaborted ∷ uv_ealready ∷ uv_econnrefused ∷ uv_econnreset ∷ uv_exdev ∷ uv_edestaddrreq
    ∷ uv_ebusy ∷ uv_enotempty ∷ uv_eof ∷ uv_eexist ∷ uv_efbig ∷ uv_enametoolong ∷ uv_enosys
    ∷ uv_ehostunreach ∷ uv_eilseq ∷ uv_eftype ∷ uv_enotty ∷ uv_eintr ∷ uv_einval ∷ uv_echarset
    ∷ uv_espipe ∷ uv_eio ∷ uv_eisdir ∷ uv_emsgsize ∷ uv_enetdown ∷ uv_enetunreach ∷ uv_enobufs
    ∷ uv_enodata ∷ uv_enoprotoopt ∷ uv_enospc ∷ uv_enxio ∷ uv_enodev ∷ uv_enoent ∷ uv_esrch
    ∷ uv_enotdir ∷ uv_enotsock ∷ uv_enotconn ∷ uv_enomem ∷ uv_enonet ∷ uv_enotsup ∷ uv_ecanceled
    ∷ uv_eperm ∷ uv_eacces ∷ uv_eproto ∷ uv_eunatch ∷ uv_eprotonosupport ∷ uv_erofs ∷ uv_eagain
    ∷ uv_erange ∷ uv_esocktnosupport ∷ uv_etxtbsy ∷ uv_etimedout ∷ uv_enfile ∷ uv_emfile ∷ uv_emlink
    ∷ uv_eloop ∷ uv_eshutdown ∷ uv_unknown ∷ uv_eoverflow ∷ uv_eprototype ∷ []

abbrev index : Constant → ℕ
index uv_eai_addrfamily = 0
index uv_eai_badflags = 1
index uv_eai_noname = 2
index uv_eai_overflow = 3
index uv_eai_badhints = 4
index uv_eai_fail = 5
index uv_eai_family = 6
index uv_eai_memory = 7
index uv_eai_nodata = 8
index uv_eai_protocol = 9
index uv_eai_canceled = 10
index uv_eai_service = 11
index uv_eai_socktype = 12
index uv_eai_again = 13
index uv_eafnosupport = 14
index uv_eaddrinuse = 15
index uv_eaddrnotavail = 16
index uv_eisconn = 17
index uv_e2big = 18
index uv_efault = 19
index uv_ebadf = 20
index uv_epipe = 21
index uv_econnaborted = 22
index uv_ealready = 23
index uv_econnrefused = 24
index uv_econnreset = 25
index uv_exdev = 26
index uv_edestaddrreq = 27
index uv_ebusy = 28
index uv_enotempty = 29
index uv_eof = 30
index uv_eexist = 31
index uv_efbig = 32
index uv_enametoolong = 33
index uv_enosys = 34
index uv_ehostunreach = 35
index uv_eilseq = 36
index uv_eftype = 37
index uv_enotty = 38
index uv_eintr = 39
index uv_einval = 40
index uv_echarset = 41
index uv_espipe = 42
index uv_eio = 43
index uv_eisdir = 44
index uv_emsgsize = 45
index uv_enetdown = 46
index uv_enetunreach = 47
index uv_enobufs = 48
index uv_enodata = 49
index uv_enoprotoopt = 50
index uv_enospc = 51
index uv_enxio = 52
index uv_enodev = 53
index uv_enoent = 54
index uv_esrch = 55
index uv_enotdir = 56
index uv_enotsock = 57
index uv_enotconn = 58
index uv_enomem = 59
index uv_enonet = 60
index uv_enotsup = 61
index uv_ecanceled = 62
index uv_eperm = 63
index uv_eacces = 64
index uv_eproto = 65
index uv_eunatch = 66
index uv_eprotonosupport = 67
index uv_erofs = 68
index uv_eagain = 69
index uv_erange = 70
index uv_esocktnosupport = 71
index uv_etxtbsy = 72
index uv_etimedout = 73
index uv_enfile = 74
index uv_emfile = 75
index uv_emlink = 76
index uv_eloop = 77
index uv_eshutdown = 78
index uv_unknown = 79
index uv_eoverflow = 80
index uv_eprototype = 81

abbrev get_elem? : List Constant → ℕ → Option Constant
get_elem? [] i = none
get_elem? (c ∷ cs) zero = some c
get_elem? (c ∷ cs) (suc i) = get_elem? cs i

get_elem?-index : (c : Constant) → get_elem? constants (index c) ≡ some c
get_elem?-index uv_eai_addrfamily = refl
get_elem?-index c = refl

abbrev number : Constant → ℤ
number c = negsuc (index c)

abbrev magnitude : ℤ → ℕ
magnitude (pos n) = n
magnitude (negsuc n) = n

abbrev or_else : Constant → Option Constant → Constant
or_else d none = d
or_else d (some c) = c

number_distinct : (c d : Constant) → number c ≡ number d → c ≡ d
number_distinct c d h =
    ap (or_else c)
      (sym (get_elem?-index c) ∙ ap (λ z. get_elem? constants (magnitude z)) h ∙ get_elem?-index d)
