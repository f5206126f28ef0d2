-- ===== src/IrcEvent/Numerics.antt =====
-- ircevent/numerics.go: the names of the numerics.
use irc_go.Prelude.{List, [], ◌∷◌, codes, Bytes}

-- Each constant with its value, in the order of the source.
abbrev pub numerics : List (Bytes × Bytes)
numerics =
    (codes "RPL_WELCOME", codes "001")
    ∷ (codes "RPL_YOURHOST", codes "002")
    ∷ (codes "RPL_CREATED", codes "003")
    ∷ (codes "RPL_MYINFO", codes "004")
    ∷ (codes "RPL_ISUPPORT", codes "005")
    ∷ (codes "RPL_SNOMASKIS", codes "008")
    ∷ (codes "RPL_BOUNCE", codes "010")
    ∷ (codes "RPL_TRACELINK", codes "200")
    ∷ (codes "RPL_TRACECONNECTING", codes "201")
    ∷ (codes "RPL_TRACEHANDSHAKE", codes "202")
    ∷ (codes "RPL_TRACEUNKNOWN", codes "203")
    ∷ (codes "RPL_TRACEOPERATOR", codes "204")
    ∷ (codes "RPL_TRACEUSER", codes "205")
    ∷ (codes "RPL_TRACESERVER", codes "206")
    ∷ (codes "RPL_TRACESERVICE", codes "207")
    ∷ (codes "RPL_TRACENEWTYPE", codes "208")
    ∷ (codes "RPL_TRACECLASS", codes "209")
    ∷ (codes "RPL_TRACERECONNECT", codes "210")
    ∷ (codes "RPL_STATSLINKINFO", codes "211")
    ∷ (codes "RPL_STATSCOMMANDS", codes "212")
    ∷ (codes "RPL_ENDOFSTATS", codes "219")
    ∷ (codes "RPL_UMODEIS", codes "221")
    ∷ (codes "RPL_SERVLIST", codes "234")
    ∷ (codes "RPL_SERVLISTEND", codes "235")
    ∷ (codes "RPL_STATSUPTIME", codes "242")
    ∷ (codes "RPL_STATSOLINE", codes "243")
    ∷ (codes "RPL_LUSERCLIENT", codes "251")
    ∷ (codes "RPL_LUSEROP", codes "252")
    ∷ (codes "RPL_LUSERUNKNOWN", codes "253")
    ∷ (codes "RPL_LUSERCHANNELS", codes "254")
    ∷ (codes "RPL_LUSERME", codes "255")
    ∷ (codes "RPL_ADMINME", codes "256")
    ∷ (codes "RPL_ADMINLOC1", codes "257")
    ∷ (codes "RPL_ADMINLOC2", codes "258")
    ∷ (codes "RPL_ADMINEMAIL", codes "259")
    ∷ (codes "RPL_TRACELOG", codes "261")
    ∷ (codes "RPL_TRACEEND", codes "262")
    ∷ (codes "RPL_TRYAGAIN", codes "263")
    ∷ (codes "RPL_LOCALUSERS", codes "265")
    ∷ (codes "RPL_GLOBALUSERS", codes "266")
    ∷ (codes "RPL_WHOISCERTFP", codes "276")
    ∷ (codes "RPL_AWAY", codes "301")
    ∷ (codes "RPL_USERHOST", codes "302")
    ∷ (codes "RPL_ISON", codes "303")
    ∷ (codes "RPL_UNAWAY", codes "305")
    ∷ (codes "RPL_NOWAWAY", codes "306")
    ∷ (codes "RPL_WHOISUSER", codes "311")
    ∷ (codes "RPL_WHOISSERVER", codes "312")
    ∷ (codes "RPL_WHOISOPERATOR", codes "313")
    ∷ (codes "RPL_WHOWASUSER", codes "314")
    ∷ (codes "RPL_ENDOFWHO", codes "315")
    ∷ (codes "RPL_WHOISIDLE", codes "317")
    ∷ (codes "RPL_ENDOFWHOIS", codes "318")
    ∷ (codes "RPL_WHOISCHANNELS", codes "319")
    ∷ (codes "RPL_LIST", codes "322")
    ∷ (codes "RPL_LISTEND", codes "323")
    ∷ (codes "RPL_CHANNELMODEIS", codes "324")
    ∷ (codes "RPL_UNIQOPIS", codes "325")
    ∷ (codes "RPL_CREATIONTIME", codes "329")
    ∷ (codes "RPL_WHOISACCOUNT", codes "330")
    ∷ (codes "RPL_NOTOPIC", codes "331")
    ∷ (codes "RPL_TOPIC", codes "332")
    ∷ (codes "RPL_TOPICTIME", codes "333")
    ∷ (codes "RPL_WHOISBOT", codes "335")
    ∷ (codes "RPL_WHOISACTUALLY", codes "338")
    ∷ (codes "RPL_INVITING", codes "341")
    ∷ (codes "RPL_SUMMONING", codes "342")
    ∷ (codes "RPL_INVITELIST", codes "346")
    ∷ (codes "RPL_ENDOFINVITELIST", codes "347")
    ∷ (codes "RPL_EXCEPTLIST", codes "348")
    ∷ (codes "RPL_ENDOFEXCEPTLIST", codes "349")
    ∷ (codes "RPL_VERSION", codes "351")
    ∷ (codes "RPL_WHOREPLY", codes "352")
    ∷ (codes "RPL_NAMREPLY", codes "353")
    ∷ (codes "RPL_WHOSPCRPL", codes "354")
    ∷ (codes "RPL_LINKS", codes "364")
    ∷ (codes "RPL_ENDOFLINKS", codes "365")
    ∷ (codes "RPL_ENDOFNAMES", codes "366")
    ∷ (codes "RPL_BANLIST", codes "367")
    ∷ (codes "RPL_ENDOFBANLIST", codes "368")
    ∷ (codes "RPL_ENDOFWHOWAS", codes "369")
    ∷ (codes "RPL_INFO", codes "371")
    ∷ (codes "RPL_MOTD", codes "372")
    ∷ (codes "RPL_ENDOFINFO", codes "374")
    ∷ (codes "RPL_MOTDSTART", codes "375")
    ∷ (codes "RPL_ENDOFMOTD", codes "376")
    ∷ (codes "RPL_WHOISMODES", codes "379")
    ∷ (codes "RPL_YOUREOPER", codes "381")
    ∷ (codes "RPL_REHASHING", codes "382")
    ∷ (codes "RPL_YOURESERVICE", codes "383")
    ∷ (codes "RPL_TIME", codes "391")
    ∷ (codes "RPL_USERSSTART", codes "392")
    ∷ (codes "RPL_USERS", codes "393")
    ∷ (codes "RPL_ENDOFUSERS", codes "394")
    ∷ (codes "RPL_NOUSERS", codes "395")
    ∷ (codes "ERR_UNKNOWNERROR", codes "400")
    ∷ (codes "ERR_NOSUCHNICK", codes "401")
    ∷ (codes "ERR_NOSUCHSERVER", codes "402")
    ∷ (codes "ERR_NOSUCHCHANNEL", codes "403")
    ∷ (codes "ERR_CANNOTSENDTOCHAN", codes "404")
    ∷ (codes "ERR_TOOMANYCHANNELS", codes "405")
    ∷ (codes "ERR_WASNOSUCHNICK", codes "406")
    ∷ (codes "ERR_TOOMANYTARGETS", codes "407")
    ∷ (codes "ERR_NOSUCHSERVICE", codes "408")
    ∷ (codes "ERR_NOORIGIN", codes "409")
    ∷ (codes "ERR_NORECIPIENT", codes "411")
    ∷ (codes "ERR_NOTEXTTOSEND", codes "412")
    ∷ (codes "ERR_NOTOPLEVEL", codes "413")
    ∷ (codes "ERR_WILDTOPLEVEL", codes "414")
    ∷ (codes "ERR_BADMASK", codes "415")
    ∷ (codes "ERR_INPUTTOOLONG", codes "417")
    ∷ (codes "ERR_UNKNOWNCOMMAND", codes "421")
    ∷ (codes "ERR_NOMOTD", codes "422")
    ∷ (codes "ERR_NOADMININFO", codes "423")
    ∷ (codes "ERR_FILEERROR", codes "424")
    ∷ (codes "ERR_NONICKNAMEGIVEN", codes "431")
    ∷ (codes "ERR_ERRONEUSNICKNAME", codes "432")
    ∷ (codes "ERR_NICKNAMEINUSE", codes "433")
    ∷ (codes "ERR_NICKCOLLISION", codes "436")
    ∷ (codes "ERR_UNAVAILRESOURCE", codes "437")
    ∷ (codes "ERR_USERNOTINCHANNEL", codes "441")
    ∷ (codes "ERR_NOTONCHANNEL", codes "442")
    ∷ (codes "ERR_USERONCHANNEL", codes "443")
    ∷ (codes "ERR_NOLOGIN", codes "444")
    ∷ (codes "ERR_SUMMONDISABLED", codes "445")
    ∷ (codes "ERR_USERSDISABLED", codes "446")
    ∷ (codes "ERR_NOTREGISTERED", codes "451")
    ∷ (codes "ERR_NEEDMOREPARAMS", codes "461")
    ∷ (codes "ERR_ALREADYREGISTRED", codes "462")
    ∷ (codes "ERR_NOPERMFORHOST", codes "463")
    ∷ (codes "ERR_PASSWDMISMATCH", codes "464")
    ∷ (codes "ERR_YOUREBANNEDCREEP", codes "465")
    ∷ (codes "ERR_YOUWILLBEBANNED", codes "466")
    ∷ (codes "ERR_KEYSET", codes "467")
    ∷ (codes "ERR_INVALIDUSERNAME", codes "468")
    ∷ (codes "ERR_LINKCHANNEL", codes "470")
    ∷ (codes "ERR_CHANNELISFULL", codes "471")
    ∷ (codes "ERR_UNKNOWNMODE", codes "472")
    ∷ (codes "ERR_INVITEONLYCHAN", codes "473")
    ∷ (codes "ERR_BANNEDFROMCHAN", codes "474")
    ∷ (codes "ERR_BADCHANNELKEY", codes "475")
    ∷ (codes "ERR_BADCHANMASK", codes "476")
    ∷ (codes "ERR_NEEDREGGEDNICK", codes "477")
    ∷ (codes "ERR_BANLISTFULL", codes "478")
    ∷ (codes "ERR_NOPRIVILEGES", codes "481")
    ∷ (codes "ERR_CHANOPRIVSNEEDED", codes "482")
    ∷ (codes "ERR_CANTKILLSERVER", codes "483")
    ∷ (codes "ERR_RESTRICTED", codes "484")
    ∷ (codes "ERR_UNIQOPPRIVSNEEDED", codes "485")
    ∷ (codes "ERR_NOOPERHOST", codes "491")
    ∷ (codes "ERR_UMODEUNKNOWNFLAG", codes "501")
    ∷ (codes "ERR_USERSDONTMATCH", codes "502")
    ∷ (codes "ERR_HELPNOTFOUND", codes "524")
    ∷ (codes "ERR_CANNOTSENDRP", codes "573")
    ∷ (codes "RPL_WHOWASIP", codes "652")
    ∷ (codes "RPL_WHOISSECURE", codes "671")
    ∷ (codes "ERR_INVALIDMODEPARAM", codes "696")
    ∷ (codes "ERR_LISTMODEALREADYSET", codes "697")
    ∷ (codes "ERR_LISTMODENOTSET", codes "698")
    ∷ (codes "RPL_HELPSTART", codes "704")
    ∷ (codes "RPL_HELPTXT", codes "705")
    ∷ (codes "RPL_ENDOFHELP", codes "706")
    ∷ (codes "ERR_NOPRIVS", codes "723")
    ∷ (codes "RPL_MONONLINE", codes "730")
    ∷ (codes "RPL_MONOFFLINE", codes "731")
    ∷ (codes "RPL_MONLIST", codes "732")
    ∷ (codes "RPL_ENDOFMONLIST", codes "733")
    ∷ (codes "ERR_MONLISTFULL", codes "734")
    ∷ (codes "RPL_LOGGEDIN", codes "900")
    ∷ (codes "RPL_LOGGEDOUT", codes "901")
    ∷ (codes "ERR_NICKLOCKED", codes "902")
    ∷ (codes "RPL_SASLSUCCESS", codes "903")
    ∷ (codes "ERR_SASLFAIL", codes "904")
    ∷ (codes "ERR_SASLTOOLONG", codes "905")
    ∷ (codes "ERR_SASLABORTED", codes "906")
    ∷ (codes "ERR_SASLALREADY", codes "907")
    ∷ (codes "RPL_SASLMECHS", codes "908")
    ∷ []
