-- ===== src/ErrorCode/Names.antt =====
-- `enum class EErrc`: an enumerator for each error code of libuv that the program names.
use uvexec.Base.{◌≡◌, refl}

-- The enumerators.
pub data Enumerator : Type 0 where
  ai_address_family_not_supported : Enumerator
  ai_bad_flags : Enumerator
  ai_bad_node : Enumerator
  ai_buffer_too_small : Enumerator
  ai_invalid_hint : Enumerator
  ai_failure : Enumerator
  ai_family_not_supported : Enumerator
  ai_not_enough_memory : Enumerator
  ai_no_address : Enumerator
  ai_protocol_error : Enumerator
  ai_request_cancelled : Enumerator
  ai_service_not_avilable : Enumerator
  ai_socket_type_not_supported : Enumerator
  ai_temporary_failure_try_again : Enumerator
  address_family_not_supported : Enumerator
  address_in_use : Enumerator
  address_not_available : Enumerator
  already_connected : Enumerator
  argument_list_too_long : Enumerator
  bad_address : Enumerator
  bad_file_descriptor : Enumerator
  broken_pipe : Enumerator
  connection_aborted : Enumerator
  connection_already_in_progress : Enumerator
  connection_refused : Enumerator
  connection_reset : Enumerator
  cross_device_link : Enumerator
  destination_address_required : Enumerator
  device_or_resource_busy : Enumerator
  directory_not_empty : Enumerator
  end_of_file : Enumerator
  file_exists : Enumerator
  file_too_large : Enumerator
  filename_too_long : Enumerator
  function_not_supported : Enumerator
  host_unreachable : Enumerator
  illegal_byte_sequence : Enumerator
  inappropriate_file_type : Enumerator
  inappropriate_io_control_operation : Enumerator
  interrupted : Enumerator
  invalid_argument : Enumerator
  invalid_character : Enumerator
  invalid_seek : Enumerator
  io_error : Enumerator
  is_a_directory : Enumerator
  message_size : Enumerator
  network_down : Enumerator
  network_unreachable : Enumerator
  no_buffer_space : Enumerator
  no_message_available : Enumerator
  no_protocol_option : Enumerator
  no_space_on_device : Enumerator
  no_such_device_or_address : Enumerator
  no_such_device : Enumerator
  no_such_file_or_directory : Enumerator
  no_such_process : Enumerator
  not_a_directory : Enumerator
  not_a_socket : Enumerator
  not_connected : Enumerator
  not_enough_memory : Enumerator
  not_on_the_network : Enumerator
  not_supported : Enumerator
  operation_canceled : Enumerator
  operation_not_permitted : Enumerator
  permission_denied : Enumerator
  protocol_error : Enumerator
  protocol_driver_not_attached : Enumerator
  protocol_not_supported : Enumerator
  read_only_file_system : Enumerator
  resource_unavailable_try_again : Enumerator
  result_out_of_range : Enumerator
  socket_type_not_supported : Enumerator
  text_file_busy : Enumerator
  timed_out : Enumerator
  too_many_files_open_in_system : Enumerator
  too_many_files_open : Enumerator
  too_many_links : Enumerator
  too_many_symbolic_link_levels : Enumerator
  transport_endpoint_shutdown : Enumerator
  unknown_error : Enumerator
  value_too_large : Enumerator
  wrong_protocol_type : Enumerator

-- The macros of libuv that they stand for.
pub data Constant : Type 0 where
  uv_eai_addrfamily : Constant
  uv_eai_badflags : Constant
  uv_eai_noname : Constant
  uv_eai_overflow : Constant
  uv_eai_badhints : Constant
  uv_eai_fail : Constant
  uv_eai_family : Constant
  uv_eai_memory : Constant
  uv_eai_nodata : Constant
  uv_eai_protocol : Constant
  uv_eai_canceled : Constant
  uv_eai_service : Constant
  uv_eai_socktype : Constant
  uv_eai_again : Constant
  uv_eafnosupport : Constant
  uv_eaddrinuse : Constant
  uv_eaddrnotavail : Constant
  uv_eisconn : Constant
  uv_e2big : Constant
  uv_efault : Constant
  uv_ebadf : Constant
  uv_epipe : Constant
  uv_econnaborted : Constant
  uv_ealready : Constant
  uv_econnrefused : Constant
  uv_econnreset : Constant
  uv_exdev : Constant
  uv_edestaddrreq : Constant
  uv_ebusy : Constant
  uv_enotempty : Constant
  uv_eof : Constant
  uv_eexist : Constant
  uv_efbig : Constant
  uv_enametoolong : Constant
  uv_enosys : Constant
  uv_ehostunreach : Constant
  uv_eilseq : Constant
  uv_eftype : Constant
  uv_enotty : Constant
  uv_eintr : Constant
  uv_einval : Constant
  uv_echarset : Constant
  uv_espipe : Constant
  uv_eio : Constant
  uv_eisdir : Constant
  uv_emsgsize : Constant
  uv_enetdown : Constant
  uv_enetunreach : Constant
  uv_enobufs : Constant
  uv_enodata : Constant
  uv_enoprotoopt : Constant
  uv_enospc : Constant
  uv_enxio : Constant
  uv_enodev : Constant
  uv_enoent : Constant
  uv_esrch : Constant
  uv_enotdir : Constant
  uv_enotsock : Constant
  uv_enotconn : Constant
  uv_enomem : Constant
  uv_enonet : Constant
  uv_enotsup : Constant
  uv_ecanceled : Constant
  uv_eperm : Constant
  uv_eacces : Constant
  uv_eproto : Constant
  uv_eunatch : Constant
  uv_eprotonosupport : Constant
  uv_erofs : Constant
  uv_eagain : Constant
  uv_erange : Constant
  uv_esocktnosupport : Constant
  uv_etxtbsy : Constant
  uv_etimedout : Constant
  uv_enfile : Constant
  uv_emfile : Constant
  uv_emlink : Constant
  uv_eloop : Constant
  uv_eshutdown : Constant
  uv_unknown : Constant
  uv_eoverflow : Constant
  uv_eprototype : Constant

unfoldable pub constant : Enumerator → Constant
constant ai_address_family_not_supported = uv_eai_addrfamily
constant ai_bad_flags = uv_eai_badflags
constant ai_bad_node = uv_eai_noname
constant ai_buffer_too_small = uv_eai_overflow
constant ai_invalid_hint = uv_eai_badhints
constant ai_failure = uv_eai_fail
constant ai_family_not_supported = uv_eai_family
constant ai_not_enough_memory = uv_eai_memory
constant ai_no_address = uv_eai_nodata
constant ai_protocol_error = uv_eai_protocol
constant ai_request_cancelled = uv_eai_canceled
constant ai_service_not_avilable = uv_eai_service
constant ai_socket_type_not_supported = uv_eai_socktype
constant ai_temporary_failure_try_again = uv_eai_again
constant address_family_not_supported = uv_eafnosupport
constant address_in_use = uv_eaddrinuse
constant address_not_available = uv_eaddrnotavail
constant already_connected = uv_eisconn
constant argument_list_too_long = uv_e2big
constant bad_address = uv_efault
constant bad_file_descriptor = uv_ebadf
constant broken_pipe = uv_epipe
constant connection_aborted = uv_econnaborted
constant connection_already_in_progress = uv_ealready
constant connection_refused = uv_econnrefused
constant connection_reset = uv_econnreset
constant cross_device_link = uv_exdev
constant destination_address_required = uv_edestaddrreq
constant device_or_resource_busy = uv_ebusy
constant directory_not_empty = uv_enotempty
constant end_of_file = uv_eof
constant file_exists = uv_eexist
constant file_too_large = uv_efbig
constant filename_too_long = uv_enametoolong
constant function_not_supported = uv_enosys
constant host_unreachable = uv_ehostunreach
constant illegal_byte_sequence = uv_eilseq
constant inappropriate_file_type = uv_eftype
constant inappropriate_io_control_operation = uv_enotty
constant interrupted = uv_eintr
constant invalid_argument = uv_einval
constant invalid_character = uv_echarset
constant invalid_seek = uv_espipe
constant io_error = uv_eio
constant is_a_directory = uv_eisdir
constant message_size = uv_emsgsize
constant network_down = uv_enetdown
constant network_unreachable = uv_enetunreach
constant no_buffer_space = uv_enobufs
constant no_message_available = uv_enodata
constant no_protocol_option = uv_enoprotoopt
constant no_space_on_device = uv_enospc
constant no_such_device_or_address = uv_enxio
constant no_such_device = uv_enodev
constant no_such_file_or_directory = uv_enoent
constant no_such_process = uv_esrch
constant not_a_directory = uv_enotdir
constant not_a_socket = uv_enotsock
constant not_connected = uv_enotconn
constant not_enough_memory = uv_enomem
constant not_on_the_network = uv_enonet
constant not_supported = uv_enotsup
constant operation_canceled = uv_ecanceled
constant operation_not_permitted = uv_eperm
constant permission_denied = uv_eacces
constant protocol_error = uv_eproto
constant protocol_driver_not_attached = uv_eunatch
constant protocol_not_supported = uv_eprotonosupport
constant read_only_file_system = uv_erofs
constant resource_unavailable_try_again = uv_eagain
constant result_out_of_range = uv_erange
constant socket_type_not_supported = uv_esocktnosupport
constant text_file_busy = uv_etxtbsy
constant timed_out = uv_etimedout
constant too_many_files_open_in_system = uv_enfile
constant too_many_files_open = uv_emfile
constant too_many_links = uv_emlink
constant too_many_symbolic_link_levels = uv_eloop
constant transport_endpoint_shutdown = uv_eshutdown
constant unknown_error = uv_unknown
constant value_too_large = uv_eoverflow
constant wrong_protocol_type = uv_eprototype

-- The name that a constant of libuv has here.
pub name_of : Constant → Enumerator
name_of uv_eai_addrfamily = ai_address_family_not_supported
name_of uv_eai_badflags = ai_bad_flags
name_of uv_eai_noname = ai_bad_node
name_of uv_eai_overflow = ai_buffer_too_small
name_of uv_eai_badhints = ai_invalid_hint
name_of uv_eai_fail = ai_failure
name_of uv_eai_family = ai_family_not_supported
name_of uv_eai_memory = ai_not_enough_memory
name_of uv_eai_nodata = ai_no_address
name_of uv_eai_protocol = ai_protocol_error
name_of uv_eai_canceled = ai_request_cancelled
name_of uv_eai_service = ai_service_not_avilable
name_of uv_eai_socktype = ai_socket_type_not_supported
name_of uv_eai_again = ai_temporary_failure_try_again
name_of uv_eafnosupport = address_family_not_supported
name_of uv_eaddrinuse = address_in_use
name_of uv_eaddrnotavail = address_not_available
name_of uv_eisconn = already_connected
name_of uv_e2big = argument_list_too_long
name_of uv_efault = bad_address
name_of uv_ebadf = bad_file_descriptor
name_of uv_epipe = broken_pipe
name_of uv_econnaborted = connection_aborted
name_of uv_ealready = connection_already_in_progress
name_of uv_econnrefused = connection_refused
name_of uv_econnreset = connection_reset
name_of uv_exdev = cross_device_link
name_of uv_edestaddrreq = destination_address_required
name_of uv_ebusy = device_or_resource_busy
name_of uv_enotempty = directory_not_empty
name_of uv_eof = end_of_file
name_of uv_eexist = file_exists
name_of uv_efbig = file_too_large
name_of uv_enametoolong = filename_too_long
name_of uv_enosys = function_not_supported
name_of uv_ehostunreach = host_unreachable
name_of uv_eilseq = illegal_byte_sequence
name_of uv_eftype = inappropriate_file_type
name_of uv_enotty = inappropriate_io_control_operation
name_of uv_eintr = interrupted
name_of uv_einval = invalid_argument
name_of uv_echarset = invalid_character
name_of uv_espipe = invalid_seek
name_of uv_eio = io_error
name_of uv_eisdir = is_a_directory
name_of uv_emsgsize = message_size
name_of uv_enetdown = network_down
name_of uv_enetunreach = network_unreachable
name_of uv_enobufs = no_buffer_space
name_of uv_enodata = no_message_available
name_of uv_enoprotoopt = no_protocol_option
name_of uv_enospc = no_space_on_device
name_of uv_enxio = no_such_device_or_address
name_of uv_enodev = no_such_device
name_of uv_enoent = no_such_file_or_directory
name_of uv_esrch = no_such_process
name_of uv_enotdir = not_a_directory
name_of uv_enotsock = not_a_socket
name_of uv_enotconn = not_connected
name_of uv_enomem = not_enough_memory
name_of uv_enonet = not_on_the_network
name_of uv_enotsup = not_supported
name_of uv_ecanceled = operation_canceled
name_of uv_eperm = operation_not_permitted
name_of uv_eacces = permission_denied
name_of uv_eproto = protocol_error
name_of uv_eunatch = protocol_driver_not_attached
name_of uv_eprotonosupport = protocol_not_supported
name_of uv_erofs = read_only_file_system
name_of uv_eagain = resource_unavailable_try_again
name_of uv_erange = result_out_of_range
name_of uv_esocktnosupport = socket_type_not_supported
name_of uv_etxtbsy = text_file_busy
name_of uv_etimedout = timed_out
name_of uv_enfile = too_many_files_open_in_system
name_of uv_emfile = too_many_files_open
name_of uv_emlink = too_many_links
name_of uv_eloop = too_many_symbolic_link_levels
name_of uv_eshutdown = transport_endpoint_shutdown
name_of uv_unknown = unknown_error
name_of uv_eoverflow = value_too_large
name_of uv_eprototype = wrong_protocol_type

pub name_of-constant : (e : Enumerator) → name_of (constant e) ≡ e
unfolding name_of constant
name_of-constant ai_address_family_not_supported = refl
name_of-constant e = refl

pub constant-name_of : (c : Constant) → constant (name_of c) ≡ c
unfolding name_of constant
constant-name_of uv_eai_addrfamily = refl
constant-name_of c = refl
